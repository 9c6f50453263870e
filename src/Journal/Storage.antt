-- ===== src/Journal/Storage.antt =====
-- Persistent storage, transient storage and logs.
use sabvm.Prelude.{Bool, true, false, ⊤, ◌∷◌, Option, none, some, ◌==◌, if◌then◌else◌}
use sabvm.State.{Address, U256, Account, EvmStorageSlot, new_slot, update, unwrap_or}
use sabvm.Journal.Defs.{
  ◌>>◌, ◌>>=◌, storage_change, transient_storage_change, Database, M, done, panic, pure, query,
  get_account, put_account, push_entry, Log,
}
use sabvm.Journal.Revert.{set_transient}

abbrev pub set_slot : Account → U256 → EvmStorageSlot → Account
set_slot acc key slot = record acc { storage = update acc.storage key (some slot) }

-- `sload`: the value, and whether the slot was cold. The storage of an account that was created
-- in this transaction is not asked of the database.
unfoldable pub sload : Database → Address → U256 → M (U256 × Bool)
sload db address key = do
  account ← get_account address
  let fetch : M U256 = if account.status.created then pure 0 else query (db.storage address key)
  let vacant : M (U256 × Bool) = do
    value ← fetch
    push_entry (storage_change address key none)
    put_account address (set_slot account key (new_slot value))
    pure (value, true)
  elim (account.storage key) [ some slot ↦ pure (slot.present_value, false) | none ↦ vacant ]

pub record SStoreResult : Type 0 where
  pub original_value : U256
  pub present_value : U256
  pub new_value : U256
  pub is_cold : Bool

abbrev pub get_slot : Account → U256 → M EvmStorageSlot
get_slot acc key s = elim (acc.storage key) [ none ↦ panic | some slot ↦ done slot s ]

unfoldable pub sstore : Database → Address → U256 → U256 → M SStoreResult
unfolding sload
sstore db address key new = do
  (present, is_cold) ← sload db address key
  acc ← get_account address
  slot ← get_slot acc key
  let result : SStoreResult = record {
    original_value = slot.original_value;
    present_value = present;
    new_value = new;
    is_cold = is_cold;
  }
  let store : M SStoreResult = do
    push_entry (storage_change address key (some present))
    put_account address (set_slot acc key (record slot { present_value = new }))
    pure result
  if present == new then pure result else store

unfoldable pub tload : Address → U256 → M U256
tload address key s = done (unwrap_or 0 (s.transient_storage address key)) s

abbrev pub put_transient : Address → U256 → Option U256 → M ⊤
put_transient address key v s =
    done tt (record s { transient_storage = set_transient address key v s.transient_storage })

-- What `tstore` journals: the value that was there, if it changes.
unfoldable pub had_value : Option U256 → U256 → Option U256
had_value old new =
    let previous_value = unwrap_or 0 old in
    if new == 0 then old else if previous_value == new then none else some previous_value

-- Zero removes the key.
unfoldable pub tstore : Address → U256 → U256 → M ⊤
unfolding had_value set_transient
tstore address key new s =
    let old = s.transient_storage address key in
    (do
      put_transient address key (if new == 0 then none else some new)
      elim (had_value old new) [
        | none ↦ pure tt
        | some had ↦ push_entry (transient_storage_change address key had)
      ])
      s

unfoldable pub log : Log → M ⊤
log l s = done tt (record s { logs = l ∷ s.logs })
