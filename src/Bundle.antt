-- ===== src/Bundle.antt =====
-- Accounts of the bundle state and their reverts (crates/revm/src/db/states/bundle_account.rs,
-- account_status.rs, reverts.rs, transition_account.rs and plain_account.rs).
pub mod Slots
pub mod Account
pub mod Update
pub mod Values
pub mod Undone
pub mod Cache
