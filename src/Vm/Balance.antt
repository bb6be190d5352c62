-- ===== src/Vm/Balance.antt =====
-- What a run of the interpreter leaves as it was.
pub mod Keeps
pub mod Values
pub mod Instructions
pub mod Calls
