-- ===== src/Editor.antt =====
-- skia/jsGUI/editor_layer.h: the address bar, a text editor over the Editor of Skia.
pub mod Types
pub mod Scroll
pub mod Cursor
pub mod Bounds
pub mod Events
pub mod Selection
pub mod Address
mod Examples
