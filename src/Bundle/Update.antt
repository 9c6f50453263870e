-- ===== src/Bundle/Update.antt =====
-- `BundleAccount::update_and_create_revert` (crates/revm/src/db/states/bundle_account.rs): a function
-- for each arm of the match on the status of the transition.
use sabvm.Prelude.{false, not, [], Option, none, some, if◌then◌else◌}
use sabvm.State.{AccountInfo, default_info, unwrap_or}
use sabvm.Bundle.Slots.{
  Storage, extend_storage, previous_storage_from_update, present_values, insert_destroyed,
}
use sabvm.Bundle.Account.{
  AccountStatus, loaded_not_existing, loaded, loaded_empty_eip161, in_memory_change, changed,
  destroyed, destroyed_changed, destroyed_again, BundleAccount, TransitionAccount,
  AccountInfoRevert, do_nothing, delete_it, revert_to, AccountRevert, infos_eq,
  new_selfdestructed_again, new_selfdestructed, new_selfdestructed_from_bundle, is_empty_revert,
}

-- The account after the update, and the revert; nothing in an unreachable arm.
abbrev pub Update : Type 0
Update = Option (BundleAccount × Option AccountRevert)

unfoldable pub info_revert : Option AccountInfo → Option AccountInfo → AccountInfoRevert
unfolding infos_eq
info_revert info updated_info =
    if not (infos_eq info updated_info) then revert_to (unwrap_or default_info info) else do_nothing

-- An update that keeps the storage that was there: the revert has the previous values of the update.
unfoldable pub kept :
    AccountStatus → AccountInfoRevert → Storage → TransitionAccount → BundleAccount → Update
unfolding previous_storage_from_update
kept status account storage transition self = some (
  record self { status = status; info = transition.info; storage = storage },
  some (record {
    account = account;
    storage = previous_storage_from_update transition.storage;
    previous_status = self.status;
    wipe_storage = false;
  }),
)

unfoldable pub to_changed : AccountStatus → TransitionAccount → BundleAccount → Update
unfolding kept info_revert extend_storage
to_changed changed t self =
    kept changed (info_revert self.info t.info) (extend_storage self.storage t.storage) t self
to_changed loaded t self =
    kept changed (info_revert self.info t.info) (extend_storage self.storage t.storage) t self
to_changed loaded_empty_eip161 t self =
    kept changed (info_revert self.info t.info) self.storage t self
to_changed other t self = none

unfoldable pub to_in_memory_change : AccountStatus → TransitionAccount → BundleAccount → Update
unfolding kept info_revert extend_storage
to_in_memory_change loaded t self =
    kept in_memory_change (info_revert self.info t.info) (extend_storage self.storage t.storage) t
      self
to_in_memory_change in_memory_change t self =
    kept in_memory_change (info_revert self.info t.info) (extend_storage self.storage t.storage) t
      self
to_in_memory_change loaded_empty_eip161 t self =
    kept in_memory_change (info_revert self.info t.info) t.storage t self
to_in_memory_change loaded_not_existing t self = kept in_memory_change delete_it t.storage t self
to_in_memory_change other t self = none

-- The account that is gone, with all its storage in the revert.
unfoldable pub gone : TransitionAccount → BundleAccount → Update
unfolding new_selfdestructed info_revert
gone t self = some (
  record self { status = destroyed; info = none; storage = [] },
  some (new_selfdestructed self.status (info_revert self.info t.info) self.storage),
)

unfoldable pub to_destroyed : AccountStatus → TransitionAccount → BundleAccount → Update
unfolding gone
to_destroyed in_memory_change t self = gone t self
to_destroyed changed t self = gone t self
to_destroyed loaded t self = gone t self
to_destroyed loaded_empty_eip161 t self = gone t self
to_destroyed loaded_not_existing t self = some (record self { storage = [] }, none)
to_destroyed other t self = none

-- The account with the storage of the transition on top of what is left of its own.
unfoldable pub changed_after : Storage → TransitionAccount → BundleAccount → BundleAccount
unfolding extend_storage
changed_after left t self = record self {
  status = destroyed_changed;
  info = t.info;
  storage = extend_storage left t.storage;
}

unfoldable pub recreated : TransitionAccount → BundleAccount → Update
unfolding changed_after previous_storage_from_update
recreated t self = some (
  changed_after self.storage t self,
  some (record {
    account = delete_it;
    storage = previous_storage_from_update t.storage;
    previous_status = self.status;
    wipe_storage = false;
  }),
)

-- The match on the status of the account where `new_selfdestructed_from_bundle` gives nothing.
unfoldable pub to_destroyed_changed : AccountStatus → TransitionAccount → BundleAccount → Update
unfolding recreated changed_after info_revert previous_storage_from_update present_values
    insert_destroyed new_selfdestructed_again
to_destroyed_changed destroyed t self = recreated t self
to_destroyed_changed loaded_not_existing t self = recreated t self
to_destroyed_changed destroyed_changed t self = some (
  changed_after (if t.storage_was_destroyed then [] else self.storage) t self,
  some (record {
    account = info_revert self.info t.info;
    storage =
        if t.storage_was_destroyed
        then insert_destroyed t.storage (present_values self.storage)
        else previous_storage_from_update t.storage;
    previous_status = destroyed_changed;
    wipe_storage = false;
  }),
)
to_destroyed_changed destroyed_again t self = some (
  changed_after self.storage t self,
  some (new_selfdestructed_again destroyed_again delete_it [] t.storage),
)
to_destroyed_changed other t self = none

unfoldable pub destroyed_again_with : Option AccountRevert → BundleAccount → Update
destroyed_again_with r self =
    some (record self { status = destroyed_again; info = none; storage = [] }, r)

unfoldable pub to_destroyed_again : AccountStatus → BundleAccount → Update
unfolding destroyed_again_with new_selfdestructed_again
to_destroyed_again destroyed self = destroyed_again_with none self
to_destroyed_again destroyed_again self = destroyed_again_with none self
to_destroyed_again loaded_not_existing self = destroyed_again_with none self
to_destroyed_again destroyed_changed self =
    destroyed_again_with
      (some (
        new_selfdestructed_again destroyed_changed (revert_to (unwrap_or default_info self.info))
          self.storage []))
      self
to_destroyed_again other self = none

-- The match on the status of the transition.
unfoldable pub update_by : AccountStatus → TransitionAccount → BundleAccount → Update
unfolding to_changed to_in_memory_change to_destroyed to_destroyed_changed to_destroyed_again
    new_selfdestructed_from_bundle info_revert destroyed_again_with
update_by changed t self = to_changed self.status t self
update_by in_memory_change t self = to_in_memory_change self.status t self
update_by loaded t self = some (self, none)
update_by loaded_not_existing t self = some (self, none)
update_by loaded_empty_eip161 t self = some (self, none)
update_by destroyed t self = to_destroyed self.status t self
update_by destroyed_changed t self =
    elim (new_selfdestructed_from_bundle (info_revert self.info t.info) self t.storage) [
      | some r ↦
          some
            (record self { status = destroyed_changed; info = t.info; storage = t.storage }, some r)
      | none ↦ to_destroyed_changed self.status t self
    ]
update_by destroyed_again t self =
    elim (new_selfdestructed_from_bundle (info_revert self.info t.info) self []) [
      | some r ↦ destroyed_again_with (some r) self
      | none ↦ to_destroyed_again self.status self
    ]

-- The last line: an empty revert is none.
unfoldable pub drop_empty : Option AccountRevert → Option AccountRevert
unfolding is_empty_revert
drop_empty none = none
drop_empty (some r) = if is_empty_revert r then none else some r

unfoldable pub update_and_create_revert : TransitionAccount → BundleAccount → Update
unfolding update_by drop_empty
update_and_create_revert t self = elim (update_by t.status t self) [
  | none ↦ none
  | some (self', r) ↦ some (self', drop_empty r)
]
