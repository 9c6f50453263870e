-- ===== src/Bundle/Undone.antt =====
-- What it means that a revert restores an account of the bundle, and reverts of each kind.
pub mod Cases
use sabvm.Prelude.{
  ℕ, Bool, true, false, not, List, [], ◌∷◌, Option, none, some, ◌≡◌, ◌⊎◌, inl, inr, refl, sym, ap,
  ◌∙◌, if◌then◌else◌, Bool-cases, Option-cases, some_inj, subst, ⊤,
}
use sabvm.State.{U256, AccountInfo, default_info, unwrap_or}
use sabvm.Bundle.Slots.{
  StorageSlot, Slots, Storage, RevertToSlot, extend_storage, previous_storage_from_update,
  present_values, insert_destroyed, revert_slots, zero_present, find,
}
use sabvm.Bundle.Account.{
  AccountStatus, loaded_not_existing, loaded, loaded_empty_eip161, in_memory_change, changed,
  destroyed, destroyed_changed, destroyed_again, BundleAccount, TransitionAccount,
  AccountInfoRevert, do_nothing, delete_it, revert_to, AccountRevert, infos_eq, is_storage_known,
  storage_slot, revert, revert_info, is_alive, new_selfdestructed_again, new_selfdestructed,
  new_selfdestructed_from_bundle, is_empty_revert,
}
use sabvm.Bundle.Update.{
  Update, info_revert, kept, to_changed, to_in_memory_change, gone, to_destroyed, changed_after,
  recreated, to_destroyed_changed, destroyed_again_with, to_destroyed_again, update_by, drop_empty,
  update_and_create_revert,
}
use sabvm.Bundle.Values.{
  present, value_of, present-restored, present-extend_storage, or_else, AllPrevious, value_with,
  extended_value, untouched_value, replaced_value, present-zero_present,
}

-- What a slot has that is not in the storage: nothing if the whole storage is known, and else what
-- the database has.
abbrev pub base_value : (U256 → U256) → AccountStatus → U256 → U256
base_value db status slot = if is_storage_known status then 0 else db slot

-- The value of a slot, read from the account and then from the database.
unfoldable pub slot_value : (U256 → U256) → BundleAccount → U256 → U256
unfolding storage_slot
slot_value db account slot = unwrap_or (db slot) (storage_slot slot account)

found_value :
    (v : U256) (o : Option StorageSlot) (known : Bool)
    → unwrap_or v (elim o as (λ _. Option U256) [
      | some s ↦ some s.present_value
      | none ↦ if known then some 0 else none
    ])
      ≡ unwrap_or (if known then 0 else v) (value_of o)
found_value v none true = refl
found_value v none false = refl
found_value v (some s) known = refl

slot_value-value_with :
    (db : U256 → U256) (b : BundleAccount) (k : U256)
    → slot_value db b k ≡ value_with (base_value db b.status) k b.storage
unfolding slot_value value_with present
slot_value-value_with db b k = found_value (db k) (find k b.storage) (is_storage_known b.status)

-- The same information, by the equality of the source, which does not read the code.
abbrev pub SameInfo : Option AccountInfo → Option AccountInfo → Type 0
SameInfo before after = (after ≡ before) ⊎ (infos_eq before after ≡ true)

-- The account as it was before: its status, its information and the value of every slot.
pub record IsRestored (db : U256 → U256) (before after : BundleAccount) : Type 0 where
  pub same_status : after.status ≡ before.status
  pub same_info : SameInfo before.info after.info
  pub same_values : (k : U256) → slot_value db after k ≡ slot_value db before k

-- The statuses of an account that does not exist.
abbrev pub is_nothing : AccountStatus → Bool
is_nothing loaded_not_existing = true
is_nothing destroyed = true
is_nothing destroyed_again = true
is_nothing other = false

pub record IsWellFormed (b : BundleAccount) : Type 0 where
  pub nobody : is_nothing b.status ≡ true → (b.info ≡ none) × (b.storage ≡ [])
  pub somebody : is_nothing b.status ≡ false → (i : AccountInfo) × (b.info ≡ some i)
  pub no_slots : b.status ≡ loaded_empty_eip161 → b.storage ≡ []

-- The transitions that leave the storage of an account that exists.
abbrev pub keeps_storage : AccountStatus → Bool → Bool
keeps_storage changed was_destroyed = true
keeps_storage in_memory_change was_destroyed = true
keeps_storage destroyed_changed was_destroyed = not was_destroyed
keeps_storage other was_destroyed = false

-- A transition that fits the account: where it keeps the storage, it knows the values before it, and
-- an account that it destroys is gone.
pub record FitsAccount (db : U256 → U256) (t : TransitionAccount) (b : BundleAccount) : Type 0 where
  pub previous :
      keeps_storage t.status t.storage_was_destroyed ≡ true
      → AllPrevious (λ k. value_with (base_value db b.status) k b.storage) t.storage
  pub destroys : (t.status ≡ destroyed) ⊎ (t.status ≡ destroyed_again) → t.info ≡ none

pub or_else-none : (o : Option U256) → or_else o none ≡ o
or_else-none none = refl
or_else-none (some v) = refl

pub alive_something : (s : AccountStatus) → is_alive s ≡ true → is_nothing s ≡ false
alive_something loaded_not_existing a = cc
alive_something loaded a = refl
alive_something loaded_empty_eip161 a = refl
alive_something in_memory_change a = refl
alive_something changed a = refl
alive_something destroyed a = cc
alive_something destroyed_changed a = cc
alive_something destroyed_again a = cc

module _ (db : U256 → U256) (b : BundleAccount) where
  -- What is said of an update: its revert, if it has one, restores the account.
  abbrev pub Undoes : Update → Type 0
  Undoes none = ⊤
  Undoes (some (b', none)) = ⊤
  Undoes (some (b', some r)) = IsRestored db b (revert r b').0

  pub values :
      (after : BundleAccount)
      → after.status ≡ b.status
      → (k : U256)
      → value_with (base_value db b.status) k after.storage
        ≡ value_with (base_value db b.status) k b.storage
      → slot_value db after k ≡ slot_value db b k
  values after e k h =
      slot_value-value_with db after k
      ∙ ap (λ s. value_with (base_value db s) k after.storage) e
      ∙ h
      ∙ sym (slot_value-value_with db b k)

  -- An account with no information and only zeros.
  pub emptied :
      (after : BundleAccount)
      → b.info ≡ none
      → b.storage ≡ []
      → is_storage_known b.status ≡ true
      → after.status ≡ b.status
      → after.info ≡ none
      → ((k : U256) → unwrap_or 0 (present k after.storage) ≡ 0)
      → IsRestored db b after
  unfolding value_with present
  emptied after n z known s i h = record {
    same_status = s;
    same_info = inl (i ∙ sym n);
    same_values = λ k. values after s k (
        ap (λ c. unwrap_or (if c then 0 else db k) (present k after.storage)) known
        ∙ h k
        ∙ sym (
            ap (λ c. unwrap_or (if c then 0 else db k) (present k b.storage)) known
            ∙ ap (λ m. unwrap_or 0 (present k m)) z));
  }

  -- A revert that deletes the account.
  pub deleted :
      (b' : BundleAccount) (reverts : Slots RevertToSlot)
      → b.info ≡ none
      → b.storage ≡ []
      → is_storage_known b.status ≡ true
      → IsRestored db b (revert_info delete_it reverts (record b' { status = b.status })).0
  unfolding revert_info present
  deleted b' reverts n z known = elim (Option-cases b'.original_info) [
    | inl e ↦ rw e (
        emptied (record b' { original_info = none; status = b.status; info = none; storage = [] }) n
          z known refl refl λ k. refl)
    | inr (o, e) ↦ rw e (
        emptied
          (record b' {
            original_info = some o;
            status = b.status;
            info = none;
            storage = zero_present b'.storage;
          })
          n z known refl refl λ k. present-zero_present k b'.storage)
  ]

  module _ (b' : BundleAccount) (reverts : Slots RevertToSlot)
      (h : (k : U256)
        → value_with (base_value db b.status) k (revert_slots reverts b'.storage)
          ≡ value_with (base_value db b.status) k b.storage) where
    -- A revert of the slots, and of the information to what it was.
    pub put_back :
        (i : AccountInfo)
        → b.info ≡ some i
        → IsRestored db b
            (revert_info
              (revert_to (unwrap_or default_info b.info))
              reverts
              (record b' { status = b.status })).0
    unfolding revert_info
    put_back i e = record {
      same_status = refl;
      same_info = inl (ap (λ o. some (unwrap_or default_info o)) e ∙ sym e);
      same_values = λ k.
          values
            (record b' {
              status = b.status;
              info = some (unwrap_or default_info b.info);
              storage = revert_slots reverts b'.storage;
            })
            refl k (h k);
    }

    pub restored :
        (updated : Option AccountInfo)
        → b'.info ≡ updated
        → (i : AccountInfo) → b.info ≡ some i
        → IsRestored db b
            (revert_info (info_revert b.info updated) reverts (record b' { status = b.status })).0
    unfolding revert_info info_revert
    restored updated u i e = elim (Bool-cases (infos_eq b.info updated)) [
      | inl q ↦ rw q (record {
        same_status = refl;
        same_info = inr (ap (infos_eq b.info) u ∙ q);
        same_values = λ k.
            values (record b' { status = b.status; storage = revert_slots reverts b'.storage }) refl
              k (h k);
      })
      | inr q ↦ rw q (put_back i e)
    ]

  -- The slots as they were after a destruction.
  pub destroyed_values :
      (u m' : Storage)
      → ((k : U256) → present k m' ≡ present k u)
      → (k : U256)
      → value_with
          (base_value db b.status)
          k
          (revert_slots (insert_destroyed u (present_values b.storage)) m')
        ≡ value_with (base_value db b.status) k b.storage
  unfolding value_with
  destroyed_values u m' h k =
      ap (unwrap_or (base_value db b.status k)) (present-restored k b.storage u m' (h k))
