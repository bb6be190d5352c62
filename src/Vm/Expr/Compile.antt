-- ===== src/Vm/Expr/Compile.antt =====
-- The code that is emitted for a sum of literals pushes the value of the sum.
use cpp_custom.Vm.Expr.Syntax.{Expr}
