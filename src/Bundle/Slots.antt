-- ===== src/Bundle/Slots.antt =====
-- Storage by slots (crates/revm/src/db/states/plain_account.rs, and the closures of
-- bundle_account.rs). A hash map is an association list, whose first entry for a key counts.
use sabvm.Prelude.{Bool, not, List, [], ◌∷◌, Option, none, some, ◌==◌, if◌then◌else◌}
use sabvm.State.{U256, is_some}

pub record StorageSlot : Type 0 where
  pub previous_or_original_value : U256
  pub present_value : U256

-- `StorageSlot::new`
abbrev pub new_slot : U256 → StorageSlot
new_slot original = record { previous_or_original_value = original; present_value = original }

unfoldable pub is_changed : StorageSlot → Bool
is_changed s = not (s.previous_or_original_value == s.present_value)

abbrev pub Slots : Type 0 → Type 0
Slots A = List (U256 × A)

-- `StorageWithOriginalValues`
abbrev pub Storage : Type 0
Storage = Slots StorageSlot

pub data RevertToSlot : Type 0 where
  revert_to_value : U256 → RevertToSlot
  destroyed_slot : RevertToSlot

module _ {A : Type 0} where
  abbrev pub find : U256 → Slots A → Option A
  find key [] = none
  find key ((k, a) ∷ m) = if key == k then some a else find key m

  unfoldable pub remove : U256 → Slots A → Slots A
  remove key [] = []
  remove key ((k, a) ∷ m) = let rest = remove key m in if key == k then rest else (k, a) ∷ rest

-- `entry(key).or_insert(slot).present_value = present_value`
unfoldable pub set_present : U256 → StorageSlot → U256 → Storage → Storage
set_present key slot present_value [] = (key, record slot { present_value = present_value }) ∷ []
set_present key slot present_value ((k, s) ∷ m) =
    let rest = set_present key slot present_value m in
    if key == k then (k, record s { present_value = present_value }) ∷ m else (k, s) ∷ rest

-- The closure `extend_storage`. The order in which a hash map gives its entries is open.
unfoldable pub extend_storage : Storage → Storage → Storage
unfolding set_present
extend_storage this_storage [] = this_storage
extend_storage this_storage ((key, value) ∷ rest) =
    set_present key value value.present_value (extend_storage this_storage rest)

-- The closure `previous_storage_from_update`.
unfoldable pub previous_storage_from_update : Storage → Slots RevertToSlot
unfolding is_changed
previous_storage_from_update [] = []
previous_storage_from_update ((key, value) ∷ rest) =
    let reverts = previous_storage_from_update rest in
    if is_changed value
    then (key, revert_to_value value.previous_or_original_value) ∷ reverts
    else reverts

-- The present values, to be reverted to.
unfoldable pub present_values : Storage → Slots RevertToSlot
present_values [] = []
present_values ((key, value) ∷ rest) =
    (key, revert_to_value value.present_value) ∷ present_values rest

-- `entry(key).or_insert(RevertToSlot::Destroyed)` for every key of the update.
unfoldable pub insert_destroyed : Storage → Slots RevertToSlot → Slots RevertToSlot
insert_destroyed [] reverts = reverts
insert_destroyed ((key, value) ∷ rest) reverts =
    let inserted = insert_destroyed rest reverts in
    if is_some (find key inserted) then inserted else (key, destroyed_slot) ∷ inserted

-- The loop of `revert` over the slots.
unfoldable pub revert_slots : Slots RevertToSlot → Storage → Storage
unfolding set_present remove
revert_slots [] storage = storage
revert_slots ((key, revert_to_value value) ∷ rest) storage =
    set_present key (new_slot value) value (revert_slots rest storage)
revert_slots ((key, destroyed_slot) ∷ rest) storage = remove key (revert_slots rest storage)

-- All present values set to zero.
unfoldable pub zero_present : Storage → Storage
zero_present [] = []
zero_present ((key, value) ∷ rest) = (key, record value { present_value = 0 }) ∷ zero_present rest
