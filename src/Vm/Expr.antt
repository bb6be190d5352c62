-- ===== src/Vm/Expr.antt =====
-- Sums of literals: the code that generateCode writes for them, and its meaning.
pub mod Syntax
pub mod Operands
pub mod Run
pub mod Compile
