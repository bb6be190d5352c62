-- ===== src/Chat.antt =====
-- socket: the programs that talk over one connection, and the servers that start a thread or a
-- process for each one.
pub mod Text
pub mod Lines
pub mod Talk
pub mod Dialogue
pub mod Typing
pub mod Ends
pub mod Start
pub mod Threads
pub mod Races
pub mod Turns
pub mod Processes
pub mod Forks
mod Examples
mod Schedules
mod Children
