-- ===== src/Net.antt =====
-- socket: the servers' loops over ready sockets.
pub mod Select
pub mod Echo
pub mod Overflow
pub mod Serving
pub mod Safe
pub mod Kqueue
pub mod Watch
pub mod Epoll
pub mod Drain
pub mod Blocking
pub mod Held
mod Examples
mod Servers
mod Clients
