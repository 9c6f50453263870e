-- ===== src/Journal/Effects.antt =====
-- What the methods of the journaled state do to balances, slots and accounts.
pub mod Slots
pub mod Balances
pub mod Create
pub mod Panics
pub mod Totality
pub mod Mint
