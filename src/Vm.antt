-- ===== src/Vm.antt =====
-- virtual-stack-machine.h and virtual-stack-machine.cpp: a stack machine with scopes and frames.
pub mod Types
pub mod State
pub mod Stack
pub mod Resolve
pub mod Interp
pub mod Codegen
pub mod Balance
pub mod Expr
pub mod Lookup
pub mod Faults
pub mod Demo
mod Examples
