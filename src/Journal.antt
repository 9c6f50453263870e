-- ===== src/Journal.antt =====
-- The journaled state (crates/revm/src/journaled_state.rs): the accounts, the transient storage
-- and the logs of a transaction, with a journal by which a subcall can be reverted.
mod Defs
mod Revert
mod Accounts
mod Storage
mod Tokens
mod Lifecycle
pub mod View
pub mod Restore
pub mod Algebra
pub mod Undo
pub mod Effects
unfoldable pub use Defs.*
unfoldable pub use Revert.*
unfoldable pub use Accounts.*
unfoldable pub use Storage.*
unfoldable pub use Tokens.*
unfoldable pub use Lifecycle.*
