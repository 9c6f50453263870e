-- ===== src/Bundle/Undone/Cases.antt =====
-- Proofs that the revert that an update of the bundle gives undoes the update, by the arms.
use sabvm.Prelude.{
  Bool, true, false, not, [], Option, none, some, ◌≡◌, inl, inr, refl, sym, ap, ◌∙◌, if◌then◌else◌,
  Bool-cases, subst,
}
use sabvm.State.{U256, AccountInfo, default_info, unwrap_or}
use sabvm.Bundle.Slots.{
  Storage, extend_storage, previous_storage_from_update, present_values, insert_destroyed,
  revert_slots,
}
use sabvm.Bundle.Account.{
  AccountStatus, loaded_not_existing, loaded, loaded_empty_eip161, in_memory_change, changed,
  destroyed, destroyed_changed, destroyed_again, BundleAccount, TransitionAccount, delete_it,
  revert_to, AccountRevert, is_storage_known, revert, revert_info, is_alive,
  new_selfdestructed_again, new_selfdestructed, new_selfdestructed_from_bundle, is_empty_revert,
}
use sabvm.Bundle.Update.{
  Update, info_revert, kept, to_changed, to_in_memory_change, gone, to_destroyed, changed_after,
  recreated, to_destroyed_changed, destroyed_again_with, to_destroyed_again, update_by, drop_empty,
  update_and_create_revert,
}
use sabvm.Bundle.Values.{
  present, present-extend_storage, AllPrevious, value_with, extended_value, untouched_value,
  replaced_value,
}
use sabvm.Bundle.Undone.{
  base_value, IsRestored, is_nothing, IsWellFormed, keeps_storage, FitsAccount, or_else-none,
  alive_something, Undoes, deleted, put_back, restored, destroyed_values,
}

module _ (db : U256 → U256) (b : BundleAccount) (t : TransitionAccount) (fits : FitsAccount db t b)
    (well : IsWellFormed b) where
  previous_kept :
      {s : AccountStatus}
      → t.status ≡ s
      → keeps_storage s t.storage_was_destroyed ≡ true
      → AllPrevious (λ k. value_with (base_value db b.status) k b.storage) t.storage
  previous_kept u h = fits.previous (ap (λ x. keeps_storage x t.storage_was_destroyed) u ∙ h)

  kept-Undoes :
      (status : AccountStatus) (storage : Storage)
      → is_nothing b.status ≡ false
      → ((k : U256)
          → value_with
              (base_value db b.status)
              k
              (revert_slots (previous_storage_from_update t.storage) storage)
            ≡ value_with (base_value db b.status) k b.storage)
      → Undoes db b (kept status (info_revert b.info t.info) storage t b)
  unfolding kept revert
  kept-Undoes status storage n h =
      let (i, e) = well.somebody n in
      restored db b (record b { status = status; info = t.info; storage = storage })
        (previous_storage_from_update t.storage) h t.info refl i e

  to_changed-Undoes :
      (s : AccountStatus) → b.status ≡ s → t.status ≡ changed → Undoes db b (to_changed s t b)
  unfolding to_changed
  to_changed-Undoes changed e u =
      kept-Undoes changed _ (ap is_nothing e)
        λ k. extended_value _ k b.storage t.storage (previous_kept u refl)
  to_changed-Undoes loaded e u =
      kept-Undoes changed _ (ap is_nothing e)
        λ k. extended_value _ k b.storage t.storage (previous_kept u refl)
  to_changed-Undoes loaded_empty_eip161 e u =
      kept-Undoes changed _ (ap is_nothing e)
        λ k. untouched_value _ k b.storage t.storage (previous_kept u refl)
  to_changed-Undoes loaded_not_existing e u = tt
  to_changed-Undoes in_memory_change e u = tt
  to_changed-Undoes destroyed e u = tt
  to_changed-Undoes destroyed_changed e u = tt
  to_changed-Undoes destroyed_again e u = tt

  to_in_memory_change-Undoes :
      (s : AccountStatus)
      → b.status ≡ s
      → t.status ≡ in_memory_change
      → Undoes db b (to_in_memory_change s t b)
  unfolding to_in_memory_change kept revert is_storage_known
  to_in_memory_change-Undoes loaded e u =
      kept-Undoes in_memory_change _ (ap is_nothing e)
        λ k. extended_value _ k b.storage t.storage (previous_kept u refl)
  to_in_memory_change-Undoes in_memory_change e u =
      kept-Undoes in_memory_change _ (ap is_nothing e)
        λ k. extended_value _ k b.storage t.storage (previous_kept u refl)
  to_in_memory_change-Undoes loaded_empty_eip161 e u =
      kept-Undoes in_memory_change _ (ap is_nothing e)
        λ k. replaced_value _ k b.storage t.storage (previous_kept u refl) (well.no_slots e)
  to_in_memory_change-Undoes loaded_not_existing e u =
      let (n, z) = well.nobody (ap is_nothing e) in
      deleted db b (record b { status = in_memory_change; info = t.info; storage = t.storage })
        (previous_storage_from_update t.storage) n z (ap is_storage_known e)
  to_in_memory_change-Undoes changed e u = tt
  to_in_memory_change-Undoes destroyed e u = tt
  to_in_memory_change-Undoes destroyed_changed e u = tt
  to_in_memory_change-Undoes destroyed_again e u = tt

  gone-Undoes : is_nothing b.status ≡ false → t.info ≡ none → Undoes db b (gone t b)
  unfolding gone revert new_selfdestructed insert_destroyed
  gone-Undoes n g =
      let (i, e) = well.somebody n in
      restored db b (record b { status = destroyed; info = none; storage = [] })
        (present_values b.storage) (destroyed_values db b [] [] λ k. refl) t.info (sym g) i e

  to_destroyed-Undoes :
      (s : AccountStatus) → b.status ≡ s → t.status ≡ destroyed → Undoes db b (to_destroyed s t b)
  unfolding to_destroyed
  to_destroyed-Undoes loaded e u = gone-Undoes (ap is_nothing e) (fits.destroys (inl u))
  to_destroyed-Undoes in_memory_change e u = gone-Undoes (ap is_nothing e) (fits.destroys (inl u))
  to_destroyed-Undoes loaded_empty_eip161 e u =
      gone-Undoes (ap is_nothing e) (fits.destroys (inl u))
  to_destroyed-Undoes changed e u = gone-Undoes (ap is_nothing e) (fits.destroys (inl u))
  to_destroyed-Undoes loaded_not_existing e u = tt
  to_destroyed-Undoes destroyed e u = tt
  to_destroyed-Undoes destroyed_changed e u = tt
  to_destroyed-Undoes destroyed_again e u = tt

  recreated-Undoes :
      is_nothing b.status ≡ true → is_storage_known b.status ≡ true → Undoes db b (recreated t b)
  unfolding recreated changed_after revert
  recreated-Undoes h known =
      let (n, z) = well.nobody h in
      deleted db b (changed_after b.storage t b) (previous_storage_from_update t.storage) n z known

  -- From an account that was destroyed and made again.
  again-Undoes :
      (wd : Bool)
      → b.status ≡ destroyed_changed
      → (wd ≡ false → AllPrevious (λ k. value_with (base_value db b.status) k b.storage) t.storage)
      → IsRestored db b
          (revert_info
            (info_revert b.info t.info)
            (if wd
              then insert_destroyed t.storage (present_values b.storage)
              else previous_storage_from_update t.storage)
            (record (changed_after (if wd then [] else b.storage) t b) { status = b.status })).0
  unfolding changed_after present
  again-Undoes true e h =
      let (i, f) = well.somebody (ap is_nothing e) in
      restored db b (changed_after [] t b) (insert_destroyed t.storage (present_values b.storage))
        (destroyed_values db b t.storage (extend_storage [] t.storage)
          λ k. present-extend_storage k [] t.storage ∙ or_else-none (present k t.storage))
        t.info refl i f
  again-Undoes false e h =
      let (i, f) = well.somebody (ap is_nothing e) in
      restored db b (changed_after b.storage t b) (previous_storage_from_update t.storage)
        (λ k. extended_value _ k b.storage t.storage (h refl)) t.info refl i f

  to_destroyed_changed-Undoes :
      (s : AccountStatus)
      → b.status ≡ s
      → t.status ≡ destroyed_changed
      → Undoes db b (to_destroyed_changed s t b)
  unfolding to_destroyed_changed is_storage_known revert new_selfdestructed_again changed_after
  to_destroyed_changed-Undoes destroyed e u =
      recreated-Undoes (ap is_nothing e) (ap is_storage_known e)
  to_destroyed_changed-Undoes loaded_not_existing e u =
      recreated-Undoes (ap is_nothing e) (ap is_storage_known e)
  to_destroyed_changed-Undoes destroyed_changed e u =
      subst
        (λ s.
          IsRestored db b
            (revert_info (info_revert b.info t.info)
              (if t.storage_was_destroyed
                then insert_destroyed t.storage (present_values b.storage)
                else previous_storage_from_update t.storage)
              (record (changed_after (if t.storage_was_destroyed then [] else b.storage) t b) {
                status = s;
              })).0)
        e (again-Undoes t.storage_was_destroyed e λ w. previous_kept u (ap not w))
  to_destroyed_changed-Undoes destroyed_again e u =
      let (n, z) = well.nobody (ap is_nothing e) in
      subst
        (λ s.
          IsRestored db b
            (revert_info delete_it (insert_destroyed t.storage (present_values []))
              (record (changed_after b.storage t b) { status = s })).0)
        e
        (deleted db b (changed_after b.storage t b) (insert_destroyed t.storage (present_values []))
          n z (ap is_storage_known e))
  to_destroyed_changed-Undoes loaded e u = tt
  to_destroyed_changed-Undoes loaded_empty_eip161 e u = tt
  to_destroyed_changed-Undoes in_memory_change e u = tt
  to_destroyed_changed-Undoes changed e u = tt

  to_destroyed_again-Undoes :
      (s : AccountStatus) → b.status ≡ s → Undoes db b (to_destroyed_again s b)
  unfolding to_destroyed_again destroyed_again_with revert new_selfdestructed_again insert_destroyed
  to_destroyed_again-Undoes destroyed e = tt
  to_destroyed_again-Undoes destroyed_again e = tt
  to_destroyed_again-Undoes loaded_not_existing e = tt
  to_destroyed_again-Undoes destroyed_changed e =
      let (i, f) = well.somebody (ap is_nothing e) in
      subst
        (λ s.
          IsRestored db b
            (revert_info (revert_to (unwrap_or default_info b.info)) (present_values b.storage)
              (record b { status = s; info = none; storage = [] })).0)
        e
        (put_back db b (record b { status = destroyed_again; info = none; storage = [] })
          (present_values b.storage) (destroyed_values db b [] [] λ k. refl) i f)
  to_destroyed_again-Undoes loaded e = tt
  to_destroyed_again-Undoes loaded_empty_eip161 e = tt
  to_destroyed_again-Undoes in_memory_change e = tt
  to_destroyed_again-Undoes changed e = tt

  -- An account that is destroyed while it exists.
  alive-Undoes :
      (u : Storage) (b' : BundleAccount) (updated : Option AccountInfo)
      → is_alive b.status ≡ true
      → b'.info ≡ updated
      → ((k : U256) → present k b'.storage ≡ present k u)
      → IsRestored db b
          (revert_info
            (info_revert b.info updated)
            (insert_destroyed u (present_values b.storage))
            (record b' { status = b.status })).0
  alive-Undoes u b' updated a e h =
      let (i, f) = well.somebody (alive_something b.status a) in
      restored db b b' (insert_destroyed u (present_values b.storage))
        (destroyed_values db b u b'.storage h) updated e i f

  -- What `new_selfdestructed_from_bundle` gives, or the arms for the other statuses.
  chosen :
      (a : Bool) (r : AccountRevert) (f : AccountRevert → Update) (other : Update)
      → (a ≡ true → Undoes db b (f r))
      → (a ≡ false → Undoes db b other)
      → Undoes db b
          (elim (if a then some r else none) as (λ _. Update) [ some r ↦ f r | none ↦ other ])
  chosen true r f other h k = h refl
  chosen false r f other h k = k refl

  update_by-Undoes : (s : AccountStatus) → t.status ≡ s → Undoes db b (update_by s t b)
  unfolding update_by new_selfdestructed_from_bundle new_selfdestructed_again destroyed_again_with
      revert
  update_by-Undoes changed u = to_changed-Undoes b.status refl u
  update_by-Undoes in_memory_change u = to_in_memory_change-Undoes b.status refl u
  update_by-Undoes loaded u = tt
  update_by-Undoes loaded_not_existing u = tt
  update_by-Undoes loaded_empty_eip161 u = tt
  update_by-Undoes destroyed u = to_destroyed-Undoes b.status refl u
  update_by-Undoes destroyed_changed u =
      let b' = record b { status = destroyed_changed; info = t.info; storage = t.storage } in
      chosen (is_alive b.status) _ (λ r. some (b', some r)) (to_destroyed_changed b.status t b)
        (λ a. alive-Undoes t.storage b' t.info a refl λ k. refl)
        (λ a. to_destroyed_changed-Undoes b.status refl u)
  update_by-Undoes destroyed_again u =
      let b' = record b { status = destroyed_again; info = none; storage = [] } in
      chosen (is_alive b.status) _ (λ r. some (b', some r)) (to_destroyed_again b.status b)
        (λ a. alive-Undoes [] b' t.info a (sym (fits.destroys (inr u))) λ k. refl)
        (λ a. to_destroyed_again-Undoes b.status refl)

  dropped-Undoes :
      (o : Update)
      → Undoes db b o
      → Undoes db b
          (elim o as (λ _. Update) [ none ↦ none | some (b', r) ↦ some (b', drop_empty r) ])
  unfolding drop_empty
  dropped-Undoes none h = tt
  dropped-Undoes (some (b', none)) h = tt
  dropped-Undoes (some (b', some r)) h = elim (Bool-cases (is_empty_revert r)) [
    | inl e ↦ rw e tt
    | inr e ↦ rw e h
  ]

-- If the update of an account by a transition gives a revert, then that revert, applied to the
-- account after the update, restores the account: its status, its information up to the equality of
-- the source, and the value of every slot, which is the database's where the account does not know
-- it. An account that does not exist has no information and no slots, one that exists has
-- information, and one that is loaded as empty has no slots; a transition that keeps the storage
-- knows the values before it, and one that destroys the account leaves no information.
pub revert-update :
    (db : U256 → U256) (t : TransitionAccount) (b b' : BundleAccount) (r : AccountRevert)
    → IsWellFormed b
    → FitsAccount db t b
    → update_and_create_revert t b ≡ some (b', some r)
    → let (b'', removed) = revert r b' in IsRestored db b b''
unfolding update_and_create_revert
revert-update db t b b' r well fits e = subst (Undoes db b) e (
    dropped-Undoes db b t fits well (update_by t.status t b)
      (update_by-Undoes db b t fits well t.status refl))
