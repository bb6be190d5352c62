-- ===== src/Html.antt =====
-- skia/jsGUI/htmlParser.h and parser/htmlParser.cpp: tokens, attributes and elements.
pub mod Result
pub mod Chars
pub mod Lexer
pub mod Tree
pub mod Parser
pub mod Progress
pub mod Total
pub mod Fragment
pub mod PlainText
pub mod PlainTag
mod Examples
