-- ===== src/Browser.antt =====
-- skia/jsGUI/SimpleBrowser.cpp, SimpleBrowser.h and component.h: clicks on the page, and its text.
pub mod Types
pub mod Mouse
pub mod Levels
pub mod Paint
pub mod Topmost
pub mod Gesture
mod Examples
pub mod Content
pub mod Fetch
