-- ===== src/State.antt =====
-- Accounts with a balance for each native token (crates/primitives/src/state.rs), the bytecode
-- that they hold, and the ids and constants that they name.
mod Defs
mod Specification
pub mod Balances
pub mod Empty
unfoldable pub use Defs.*
unfoldable pub use Specification.*
