-- ===== src/Quickjs.antt =====
-- quickjs: the modules of C functions for scripts.
pub mod Timers
pub mod Counted
pub mod Balance
pub mod Runs
pub mod Fib
pub mod Sequence
mod Examples
