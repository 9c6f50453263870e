-- ===== src/Gas.antt =====
-- The gas counter and the prices of the instructions (crates/interpreter/src/gas.rs, gas/calc.rs
-- and gas/constants.rs).
mod Constants
mod Counter
mod Calc
mod Sstore
pub mod Counting
pub mod Prices
pub mod Logarithm
pub mod Refunds
unfoldable pub use Constants.*
unfoldable pub use Counter.*
unfoldable pub use Calc.*
unfoldable pub use Sstore.*
