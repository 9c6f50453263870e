-- ===== src/Bundle/Cache.antt =====
-- `CacheAccount` (crates/revm/src/db/states/cache_account.rs), and how an operation of it changes the
-- status (account_status.rs). `none` is a panic.
pub mod Reachable
pub mod Transitions
use sabvm.Prelude.{
  ℕ, Bool, true, false, ◌&&◌, ◌^◌, List, [], ◌∷◌, Option, none, some, ◌==◌, ltb, if◌then◌else◌,
}
use sabvm.State.{
  U256, AccountInfo, default_info, unwrap_or, is_empty, is_empty_code_hash, get_balance,
  set_balance, increase_balance,
}
use sabvm.Bundle.Slots.{Slots, Storage, find}
use sabvm.Bundle.Account.{
  AccountStatus, loaded_not_existing, loaded, loaded_empty_eip161, in_memory_change, changed,
  destroyed, destroyed_changed, destroyed_again, TransitionAccount,
}

-- `AccountInfo::has_no_code_and_nonce`
unfoldable pub has_no_code_and_nonce : AccountInfo → Bool
unfolding is_empty_code_hash
has_no_code_and_nonce info = is_empty_code_hash info && info.nonce == 0

unfoldable pub on_created : AccountStatus → AccountStatus
on_created destroyed_again = destroyed_changed
on_created destroyed = destroyed_changed
on_created destroyed_changed = destroyed_changed
on_created other = in_memory_change

unfoldable pub on_touched_empty_post_eip161 : AccountStatus → Option AccountStatus
on_touched_empty_post_eip161 loaded_not_existing = some loaded_not_existing
on_touched_empty_post_eip161 in_memory_change = some destroyed
on_touched_empty_post_eip161 destroyed = some destroyed
on_touched_empty_post_eip161 loaded_empty_eip161 = some destroyed
on_touched_empty_post_eip161 destroyed_again = some destroyed_again
on_touched_empty_post_eip161 destroyed_changed = some destroyed_again
on_touched_empty_post_eip161 loaded = none
on_touched_empty_post_eip161 changed = none

unfoldable pub on_touched_created_pre_eip161 : AccountStatus → Bool → Option (Option AccountStatus)
on_touched_created_pre_eip161 loaded_empty_eip161 had_no_info = some none
on_touched_created_pre_eip161 destroyed_changed had_no_info =
    some (if had_no_info then none else some destroyed_changed)
on_touched_created_pre_eip161 destroyed had_no_info = some (some destroyed_changed)
on_touched_created_pre_eip161 destroyed_again had_no_info = some (some destroyed_changed)
on_touched_created_pre_eip161 in_memory_change had_no_info = some (some in_memory_change)
on_touched_created_pre_eip161 loaded_not_existing had_no_info = some (some in_memory_change)
on_touched_created_pre_eip161 loaded had_no_info = none
on_touched_created_pre_eip161 changed had_no_info = none

unfoldable pub on_changed : AccountStatus → Bool → AccountStatus
on_changed loaded_not_existing had_no_nonce_and_code = in_memory_change
on_changed loaded_empty_eip161 had_no_nonce_and_code = in_memory_change
on_changed loaded had_no_nonce_and_code =
    if had_no_nonce_and_code then in_memory_change else changed
on_changed changed had_no_nonce_and_code = changed
on_changed in_memory_change had_no_nonce_and_code = in_memory_change
on_changed destroyed_changed had_no_nonce_and_code = destroyed_changed
on_changed destroyed had_no_nonce_and_code = destroyed_changed
on_changed destroyed_again had_no_nonce_and_code = destroyed_changed

unfoldable pub on_selfdestructed : AccountStatus → AccountStatus
on_selfdestructed loaded_not_existing = loaded_not_existing
on_selfdestructed destroyed_changed = destroyed_again
on_selfdestructed destroyed_again = destroyed_again
on_selfdestructed destroyed = destroyed_again
on_selfdestructed other = destroyed

pub record PlainAccount : Type 0 where
  pub info : AccountInfo
  pub storage : Slots U256

pub record CacheAccount : Type 0 where
  pub account : Option PlainAccount
  pub status : AccountStatus

abbrev pub info_of : Option PlainAccount → Option AccountInfo
info_of none = none
info_of (some a) = some a.info

abbrev pub storage_of : Option PlainAccount → Slots U256
storage_of none = []
storage_of (some a) = a.storage

-- A test of the information that there is; false without any.
abbrev pub info_test : (AccountInfo → Bool) → Option AccountInfo → Bool
info_test f none = false
info_test f (some info) = f info

-- The present values.
unfoldable pub plain_storage : Storage → Slots U256
plain_storage [] = []
plain_storage ((k, s) ∷ m) = (k, s.present_value) ∷ plain_storage m

-- `extend`: of two entries for a key the first counts.
unfoldable pub extend_plain : Slots U256 → Storage → Slots U256
extend_plain this_storage [] = this_storage
extend_plain this_storage ((k, s) ∷ m) = (k, s.present_value) ∷ extend_plain this_storage m

-- The account after the operation, and the transition, if there is one.
abbrev pub CacheStep : Type 0
CacheStep = Option (CacheAccount × Option TransitionAccount)

-- The transition from an account to another.
abbrev pub transition_to :
    CacheAccount → Storage → Bool → CacheAccount → CacheAccount × Option TransitionAccount
transition_to self storage storage_was_destroyed self' = (
  self',
  some (record {
    info = info_of self'.account;
    status = self'.status;
    previous_info = info_of self.account;
    previous_status = self.status;
    storage = storage;
    storage_was_destroyed = storage_was_destroyed;
  }),
)

unfoldable pub change : AccountInfo → Storage → CacheAccount → CacheStep
unfolding on_changed extend_plain
change new storage self = some (
    transition_to self storage false (record {
      account =
          some (record { info = new; storage = extend_plain (storage_of self.account) storage });
      status = on_changed self.status (info_test has_no_code_and_nonce (info_of self.account));
    }))

unfoldable pub newly_created : AccountInfo → Storage → CacheAccount → CacheStep
unfolding on_created plain_storage
newly_created new_info new_storage self = some (
    transition_to self new_storage false (record {
      account = some (record { info = new_info; storage = plain_storage new_storage });
      status = on_created self.status;
    }))

abbrev pub is_not_existing : AccountStatus → Bool
is_not_existing loaded_not_existing = true
is_not_existing other = false

unfoldable pub selfdestruct : CacheAccount → CacheStep
unfolding on_selfdestructed
selfdestruct self =
    let self' : CacheAccount = record { account = none; status = on_selfdestructed self.status } in
    some (if is_not_existing self.status then (self', none) else transition_to self [] true self')

abbrev pub is_gone : AccountStatus → Bool
is_gone loaded_not_existing = true
is_gone destroyed = true
is_gone destroyed_again = true
is_gone other = false

unfoldable pub touch_empty_eip161 : CacheAccount → CacheStep
unfolding on_touched_empty_post_eip161
touch_empty_eip161 self = elim (on_touched_empty_post_eip161 self.status) [
  | none ↦ none
  | some status ↦
      let self' : CacheAccount = record { account = none; status = status } in
      some (if is_gone self.status then (self', none) else transition_to self [] true self')
]

unfoldable pub touch_create_pre_eip161 : Storage → CacheAccount → CacheStep
unfolding on_touched_created_pre_eip161 plain_storage is_empty
touch_create_pre_eip161 storage self =
    elim (on_touched_created_pre_eip161 self.status (info_test is_empty (info_of self.account))) [
      | none ↦ none
      | some none ↦ some (self, none)
      | some (some status) ↦ some (
          transition_to self storage false (record {
            account = some (record { info = default_info; storage = plain_storage storage });
            status = status;
          }))
    ]

unfoldable pub account_info_change : (AccountInfo → AccountInfo) → CacheAccount → CacheStep
unfolding on_changed
account_info_change f self = some (
    transition_to self [] false (record {
      account = some (record {
        info = f (unwrap_or default_info (info_of self.account));
        storage = storage_of self.account;
      });
      status = on_changed self.status (info_test has_no_code_and_nonce (info_of self.account));
    }))

unfoldable pub increment_balance : U256 → ℕ → CacheAccount → CacheStep
unfolding account_info_change
increment_balance token_id value self =
    if value == 0
    then some (self, none)
    else account_info_change (increase_balance token_id value) self

-- Without the amount, which has to fit into 128 bits.
unfoldable pub drain_balance : U256 → CacheAccount → CacheStep
unfolding account_info_change
drain_balance token_id self =
    if ltb (get_balance token_id (unwrap_or default_info (info_of self.account))) (2 ^ 128)
    then account_info_change (set_balance token_id 0) self
    else none
