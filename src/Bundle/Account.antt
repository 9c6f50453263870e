-- ===== src/Bundle/Account.antt =====
-- `BundleAccount` with its two operations, a transition and its revert (crates/revm/src/db/states).
-- `none` is an arm that the source calls unreachable.
use sabvm.Prelude.{
  Bool, true, false, not, ◌&&◌, [], ◌∷◌, Option, none, some, ◌==◌, if◌then◌else◌, length,
}
use sabvm.State.{U256, TokenBalances, AccountInfo, lookup}
use sabvm.Bundle.Slots.{
  Slots, Storage, RevertToSlot, find, present_values, insert_destroyed, revert_slots, zero_present,
}

pub data AccountStatus : Type 0 where
  loaded_not_existing : AccountStatus
  loaded : AccountStatus
  loaded_empty_eip161 : AccountStatus
  in_memory_change : AccountStatus
  changed : AccountStatus
  destroyed : AccountStatus
  destroyed_changed : AccountStatus
  destroyed_again : AccountStatus

unfoldable pub is_storage_known : AccountStatus → Bool
is_storage_known loaded_not_existing = true
is_storage_known loaded = false
is_storage_known loaded_empty_eip161 = false
is_storage_known in_memory_change = true
is_storage_known changed = false
is_storage_known destroyed = true
is_storage_known destroyed_changed = true
is_storage_known destroyed_again = true

pub record BundleAccount : Type 0 where
  pub info : Option AccountInfo
  pub original_info : Option AccountInfo
  pub storage : Storage
  pub status : AccountStatus

pub record TransitionAccount : Type 0 where
  pub info : Option AccountInfo
  pub status : AccountStatus
  pub previous_info : Option AccountInfo
  pub previous_status : AccountStatus
  pub storage : Storage
  pub storage_was_destroyed : Bool

pub data AccountInfoRevert : Type 0 where
  do_nothing : AccountInfoRevert
  delete_it : AccountInfoRevert
  revert_to : AccountInfo → AccountInfoRevert

pub record AccountRevert : Type 0 where
  pub account : AccountInfoRevert
  pub storage : Slots RevertToSlot
  pub previous_status : AccountStatus
  pub wipe_storage : Bool

-- The equality of the balances as maps: as many entries, and every one of the first in the second.
unfoldable pub balances_in : TokenBalances → TokenBalances → Bool
balances_in [] other = true
balances_in ((id, v) ∷ rest) other = elim (lookup id other) [
  | none ↦ false
  | some w ↦ v == w && balances_in rest other
]

-- `AccountInfo::eq`
unfoldable pub info_eq : AccountInfo → AccountInfo → Bool
unfolding balances_in
info_eq info other =
    info.nonce == other.nonce
    && (info.code_hash == other.code_hash
        && (length info.balances == length other.balances
            && balances_in info.balances other.balances))

unfoldable pub infos_eq : Option AccountInfo → Option AccountInfo → Bool
unfolding info_eq
infos_eq none none = true
infos_eq none (some b) = false
infos_eq (some a) none = false
infos_eq (some a) (some b) = info_eq a b

-- `BundleAccount::storage_slot`
unfoldable pub storage_slot : U256 → BundleAccount → Option U256
unfolding is_storage_known
storage_slot slot account = elim (find slot account.storage) [
  | some s ↦ some s.present_value
  | none ↦ if is_storage_known account.status then some 0 else none
]

-- `revert` by what it does with the account's information.
unfoldable pub revert_info :
    AccountInfoRevert → Slots RevertToSlot → BundleAccount → BundleAccount × Bool
unfolding revert_slots zero_present
revert_info do_nothing storage self =
    (record self { storage = revert_slots storage self.storage }, false)
revert_info delete_it storage self = elim self.original_info [
  | none ↦ (record self { info = none; storage = [] }, true)
  | some original ↦ (record self { info = none; storage = zero_present self.storage }, false)
]
revert_info (revert_to info) storage self =
    (record self { info = some info; storage = revert_slots storage self.storage }, false)

-- `BundleAccount::revert`
unfoldable pub revert : AccountRevert → BundleAccount → BundleAccount × Bool
unfolding revert_info
revert r self = revert_info r.account r.storage (record self { status = r.previous_status })

unfoldable pub new_selfdestructed_again :
    AccountStatus → AccountInfoRevert → Storage → Storage → AccountRevert
unfolding insert_destroyed present_values
new_selfdestructed_again status account previous_storage updated_storage = record {
  account = account;
  storage = insert_destroyed updated_storage (present_values previous_storage);
  previous_status = status;
  wipe_storage = false;
}

unfoldable pub new_selfdestructed : AccountStatus → AccountInfoRevert → Storage → AccountRevert
unfolding present_values
new_selfdestructed status account storage = record {
  account = account;
  storage = present_values storage;
  previous_status = status;
  wipe_storage = true;
}

-- The statuses of the first arm of `new_selfdestructed_from_bundle`.
abbrev pub is_alive : AccountStatus → Bool
is_alive loaded_not_existing = false
is_alive loaded = true
is_alive loaded_empty_eip161 = true
is_alive in_memory_change = true
is_alive changed = true
is_alive destroyed = false
is_alive destroyed_changed = false
is_alive destroyed_again = false

-- What it takes out of the account's storage is not used any more.
unfoldable pub new_selfdestructed_from_bundle :
    AccountInfoRevert → BundleAccount → Storage → Option AccountRevert
unfolding new_selfdestructed_again
new_selfdestructed_from_bundle account_info_revert account updated_storage =
    if is_alive account.status
    then some
        (record (new_selfdestructed_again account.status account_info_revert account.storage
          updated_storage) { wipe_storage = true })
    else none

-- `AccountRevert::is_empty`
abbrev pub does_nothing : AccountInfoRevert → Bool
does_nothing do_nothing = true
does_nothing delete_it = false
does_nothing (revert_to info) = false

unfoldable pub is_empty_revert : AccountRevert → Bool
is_empty_revert r = does_nothing r.account && (length r.storage == 0 && not r.wipe_storage)
