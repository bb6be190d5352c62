-- ===== src/Libuv.antt =====
-- libuv: the example programs.
pub mod Dhcp
pub mod Offer
pub mod Cat
pub mod Copied
mod Examples
pub mod Download
pub mod Polling
pub mod Transfers
pub mod Finished
pub mod Completed
pub mod Downloads
pub mod EchoServer
pub mod Buffers
mod Sessions
mod Echoes
