-- ===== src/Interpreter/Instructions.antt =====
-- The instructions (crates/interpreter/src/instructions). Each is a function of the interpreter; the
-- const parameters and `SPEC` of the source are arguments.
pub mod Arithmetic
pub mod Bitwise
pub mod StackOps
pub mod Memory
pub mod Control
pub mod System
pub mod Operators
unfoldable pub use Arithmetic.*
unfoldable pub use Bitwise.*
unfoldable pub use Memory.*
unfoldable pub use Control.*
unfoldable pub use System.*
