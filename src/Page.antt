-- ===== src/Page.antt =====
-- skia/jsGUI/SimpleBrowser.cpp: from an address to the drawn page, and what scripts change of it.
pub mod Types
pub mod Numbers
pub mod Store
pub mod Draw
pub mod Script
pub mod Load
pub mod Outcome
pub mod Keeps
pub mod Forward
pub mod Ends
pub mod Drawn
pub mod Requests
pub mod Boxes
pub mod Reads
pub mod Valid
pub mod Changes
pub mod Sizes
mod Sample
mod Examples
