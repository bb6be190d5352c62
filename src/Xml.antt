-- ===== src/Xml.antt =====
-- parser/xmlParser.cpp: tags with texts or tags inside.
pub mod Lexer
pub mod Parser
pub mod Total
pub mod Words
pub mod Printed
pub mod Read
pub mod Parsed
mod Examples
