-- ===== src/Bundle/Cache/Reachable.antt =====
-- Proofs about the arms of an update that the source calls unreachable.
use sabvm.Prelude.{Bool, true, false, none, some, ◌≡◌, refl, ◌∙◌, if◌then◌else◌}
use sabvm.State.{is_some}
use sabvm.Bundle.Account.{
  AccountStatus, loaded_not_existing, loaded, loaded_empty_eip161, in_memory_change, changed,
  destroyed, destroyed_changed, destroyed_again, BundleAccount, TransitionAccount, AccountRevert,
  is_alive, new_selfdestructed_from_bundle,
}
use sabvm.Bundle.Update.{
  Update, to_changed, to_in_memory_change, kept, gone, recreated, to_destroyed,
  to_destroyed_changed, to_destroyed_again, destroyed_again_with, update_by, drop_empty,
  update_and_create_revert,
}

-- The statuses that the arm for each status of a transition accepts.
abbrev pub accepts : AccountStatus → AccountStatus → Bool
accepts changed changed = true
accepts changed loaded = true
accepts changed loaded_empty_eip161 = true
accepts changed other = false
accepts in_memory_change loaded = true
accepts in_memory_change in_memory_change = true
accepts in_memory_change loaded_empty_eip161 = true
accepts in_memory_change loaded_not_existing = true
accepts in_memory_change other = false
accepts destroyed destroyed = false
accepts destroyed destroyed_changed = false
accepts destroyed destroyed_again = false
accepts destroyed other = true
accepts loaded other = true
accepts loaded_not_existing other = true
accepts loaded_empty_eip161 other = true
accepts destroyed_changed other = true
accepts destroyed_again other = true

kept_some :
    (o : Update)
    → is_some o ≡ true
    → is_some (elim o as (λ _. Update) [ none ↦ none | some (b', r) ↦ some (b', drop_empty r) ])
      ≡ true
kept_some none h = cc
kept_some (some (b', r)) h = refl

module _ (t : TransitionAccount) (b : BundleAccount) where
  is_some-to_changed : (s : AccountStatus) → is_some (to_changed s t b) ≡ accepts changed s
  unfolding to_changed kept
  is_some-to_changed changed = refl
  is_some-to_changed loaded = refl
  is_some-to_changed loaded_empty_eip161 = refl
  is_some-to_changed loaded_not_existing = refl
  is_some-to_changed in_memory_change = refl
  is_some-to_changed destroyed = refl
  is_some-to_changed destroyed_changed = refl
  is_some-to_changed destroyed_again = refl

  is_some-to_in_memory_change :
      (s : AccountStatus) → is_some (to_in_memory_change s t b) ≡ accepts in_memory_change s
  unfolding to_in_memory_change kept
  is_some-to_in_memory_change changed = refl
  is_some-to_in_memory_change loaded = refl
  is_some-to_in_memory_change loaded_empty_eip161 = refl
  is_some-to_in_memory_change loaded_not_existing = refl
  is_some-to_in_memory_change in_memory_change = refl
  is_some-to_in_memory_change destroyed = refl
  is_some-to_in_memory_change destroyed_changed = refl
  is_some-to_in_memory_change destroyed_again = refl

  is_some-to_destroyed : (s : AccountStatus) → is_some (to_destroyed s t b) ≡ accepts destroyed s
  unfolding to_destroyed gone
  is_some-to_destroyed changed = refl
  is_some-to_destroyed loaded = refl
  is_some-to_destroyed loaded_empty_eip161 = refl
  is_some-to_destroyed loaded_not_existing = refl
  is_some-to_destroyed in_memory_change = refl
  is_some-to_destroyed destroyed = refl
  is_some-to_destroyed destroyed_changed = refl
  is_some-to_destroyed destroyed_again = refl

  -- Where the account is not alive, the last match accepts every status.
  is_some-to_destroyed_changed :
      (s : AccountStatus) → is_alive s ≡ false → is_some (to_destroyed_changed s t b) ≡ true
  unfolding to_destroyed_changed recreated
  is_some-to_destroyed_changed destroyed a = refl
  is_some-to_destroyed_changed destroyed_changed a = refl
  is_some-to_destroyed_changed destroyed_again a = refl
  is_some-to_destroyed_changed loaded_not_existing a = refl
  is_some-to_destroyed_changed changed a = cc
  is_some-to_destroyed_changed loaded a = cc
  is_some-to_destroyed_changed loaded_empty_eip161 a = cc
  is_some-to_destroyed_changed in_memory_change a = cc

  is_some-to_destroyed_again :
      (s : AccountStatus) → is_alive s ≡ false → is_some (to_destroyed_again s b) ≡ true
  unfolding to_destroyed_again destroyed_again_with
  is_some-to_destroyed_again destroyed a = refl
  is_some-to_destroyed_again destroyed_changed a = refl
  is_some-to_destroyed_again destroyed_again a = refl
  is_some-to_destroyed_again loaded_not_existing a = refl
  is_some-to_destroyed_again changed a = cc
  is_some-to_destroyed_again loaded a = cc
  is_some-to_destroyed_again loaded_empty_eip161 a = cc
  is_some-to_destroyed_again in_memory_change a = cc

  chosen :
      (a : Bool) (r : AccountRevert) (f : AccountRevert → Update) (other : Update)
      → is_some (f r) ≡ true
      → (a ≡ false → is_some other ≡ true)
      → is_some (elim (if a then some r else none) as (λ _. Update) [ some r ↦ f r | none ↦ other ])
        ≡ true
  chosen true r f other h k = h
  chosen false r f other h k = k refl

  is_some-update_by :
      (s : AccountStatus) → accepts s b.status ≡ true → is_some (update_by s t b) ≡ true
  unfolding update_by new_selfdestructed_from_bundle destroyed_again_with
  is_some-update_by changed h = is_some-to_changed b.status ∙ h
  is_some-update_by in_memory_change h = is_some-to_in_memory_change b.status ∙ h
  is_some-update_by destroyed h = is_some-to_destroyed b.status ∙ h
  is_some-update_by loaded h = refl
  is_some-update_by loaded_not_existing h = refl
  is_some-update_by loaded_empty_eip161 h = refl
  is_some-update_by destroyed_changed h =
      chosen (is_alive b.status) _ _ _ refl (is_some-to_destroyed_changed b.status)
  is_some-update_by destroyed_again h =
      chosen (is_alive b.status) _ _ _ refl (is_some-to_destroyed_again b.status)

  pub is_some-update :
      accepts t.status b.status ≡ true → is_some (update_and_create_revert t b) ≡ true
  unfolding update_and_create_revert
  is_some-update h = kept_some (update_by t.status t b) (is_some-update_by t.status h)
