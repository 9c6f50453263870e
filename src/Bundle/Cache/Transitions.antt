-- ===== src/Bundle/Cache/Transitions.antt =====
-- Proofs that no transition of a cache account leads an update of the bundle into an unreachable arm.
use sabvm.Prelude.{
  ℕ, ltb, ◌^◌, Bool, true, false, [], Option, none, some, ◌≡◌, ◌≢◌, refl, ap, ◌∙◌, ◌==◌,
  if◌then◌else◌, some_inj, subst, ⊤,
}
use sabvm.State.{
  U256, AccountInfo, is_some, is_empty, get_balance, unwrap_or, default_info, increase_balance,
  set_balance,
}
use sabvm.Bundle.Slots.{Storage}
use sabvm.Bundle.Account.{
  AccountStatus, loaded_not_existing, loaded, loaded_empty_eip161, in_memory_change, changed,
  destroyed, destroyed_changed, destroyed_again, BundleAccount, TransitionAccount,
}
use sabvm.Bundle.Update.{update_and_create_revert}
use sabvm.Bundle.Cache.{
  CacheAccount, CacheStep, PlainAccount, info_of, info_test, has_no_code_and_nonce, is_gone,
  is_not_existing, transition_to, on_created, on_touched_empty_post_eip161,
  on_touched_created_pre_eip161, on_changed, on_selfdestructed, change, newly_created, selfdestruct,
  touch_empty_eip161, touch_create_pre_eip161, account_info_change, increment_balance,
  drain_balance,
}
use sabvm.Bundle.Cache.Reachable.{accepts, is_some-update}

-- The operations of a cache account that give a transition.
pub data CacheOp : Type 0 where
  change_to : AccountInfo → Storage → CacheOp
  create_as : AccountInfo → Storage → CacheOp
  destroy : CacheOp
  touch_empty : CacheOp
  touch_create : Storage → CacheOp
  add_balance : U256 → ℕ → CacheOp
  drain : U256 → CacheOp

unfoldable pub run_cache_op : CacheOp → CacheAccount → CacheStep
run_cache_op (change_to info storage) a = change info storage a
run_cache_op (create_as info storage) a = newly_created info storage a
run_cache_op destroy a = selfdestruct a
run_cache_op touch_empty a = touch_empty_eip161 a
run_cache_op (touch_create storage) a = touch_create_pre_eip161 storage a
run_cache_op (add_balance token_id value) a = increment_balance token_id value a
run_cache_op (drain token_id) a = drain_balance token_id a

-- A creation at an address whose account has code or a nonce, which the EVM refuses.
abbrev pub is_refused : CacheOp → AccountStatus → Bool
is_refused (create_as info storage) changed = true
is_refused op status = false

-- A transition that the status accepts.
abbrev IsAccepted : AccountStatus → CacheStep → Type 0
IsAccepted s none = ⊤
IsAccepted s (some (a', none)) = ⊤
IsAccepted s (some (a', some t)) = accepts t.status s ≡ true

accepts-on_changed : (s : AccountStatus) (h : Bool) → accepts (on_changed s h) s ≡ true
unfolding on_changed
accepts-on_changed loaded_not_existing h = refl
accepts-on_changed loaded true = refl
accepts-on_changed loaded false = refl
accepts-on_changed loaded_empty_eip161 h = refl
accepts-on_changed in_memory_change h = refl
accepts-on_changed changed h = refl
accepts-on_changed destroyed h = refl
accepts-on_changed destroyed_changed h = refl
accepts-on_changed destroyed_again h = refl

accepts-on_created :
    (s : AccountStatus) (info : AccountInfo) (storage : Storage)
    → is_refused (create_as info storage) s ≡ false
    → accepts (on_created s) s ≡ true
unfolding on_created
accepts-on_created loaded_not_existing i m h = refl
accepts-on_created loaded i m h = refl
accepts-on_created loaded_empty_eip161 i m h = refl
accepts-on_created in_memory_change i m h = refl
accepts-on_created changed i m h = cc
accepts-on_created destroyed i m h = refl
accepts-on_created destroyed_changed i m h = refl
accepts-on_created destroyed_again i m h = refl

accepts-on_selfdestructed : (s : AccountStatus) → accepts (on_selfdestructed s) s ≡ true
unfolding on_selfdestructed
accepts-on_selfdestructed loaded_not_existing = refl
accepts-on_selfdestructed loaded = refl
accepts-on_selfdestructed loaded_empty_eip161 = refl
accepts-on_selfdestructed in_memory_change = refl
accepts-on_selfdestructed changed = refl
accepts-on_selfdestructed destroyed = refl
accepts-on_selfdestructed destroyed_changed = refl
accepts-on_selfdestructed destroyed_again = refl

if-IsAccepted :
    (s : AccountStatus) (b : Bool) (x y : CacheStep)
    → IsAccepted s x
    → IsAccepted s y
    → IsAccepted s (if b then x else y)
if-IsAccepted s true x y h k = h
if-IsAccepted s false x y h k = k

pair-IsAccepted :
    (s : AccountStatus) (b : Bool) (x y : CacheAccount × Option TransitionAccount)
    → IsAccepted s (some x)
    → (b ≡ false → IsAccepted s (some y))
    → IsAccepted s (some (if b then x else y))
pair-IsAccepted s true x y h k = h
pair-IsAccepted s false x y h k = k refl

accepts-touched :
    (s s' : AccountStatus)
    → on_touched_empty_post_eip161 s ≡ some s'
    → is_gone s ≡ false
    → accepts s' s ≡ true
unfolding on_touched_empty_post_eip161
accepts-touched loaded_not_existing s' e g = cc
accepts-touched loaded s' e g = cc
accepts-touched loaded_empty_eip161 s' e g =
    subst (λ x. accepts x loaded_empty_eip161 ≡ true) (some_inj e) refl
accepts-touched in_memory_change s' e g =
    subst (λ x. accepts x in_memory_change ≡ true) (some_inj e) refl
accepts-touched changed s' e g = cc
accepts-touched destroyed s' e g = cc
accepts-touched destroyed_changed s' e g =
    subst (λ x. accepts x destroyed_changed ≡ true) (some_inj e) refl
accepts-touched destroyed_again s' e g = cc

no_status : {s' : AccountStatus} → none ≢ some s'
no_status e = cc

accepts-created_pre :
    (s s' : AccountStatus) (h : Bool)
    → on_touched_created_pre_eip161 s h ≡ some (some s')
    → accepts s' s ≡ true
unfolding on_touched_created_pre_eip161
accepts-created_pre loaded_not_existing s' h e =
    subst (λ x. accepts x loaded_not_existing ≡ true) (some_inj (some_inj e)) refl
accepts-created_pre loaded s' h e = cc
accepts-created_pre loaded_empty_eip161 s' h e = absurd (no_status (some_inj e))
accepts-created_pre in_memory_change s' h e =
    subst (λ x. accepts x in_memory_change ≡ true) (some_inj (some_inj e)) refl
accepts-created_pre changed s' h e = cc
accepts-created_pre destroyed s' h e =
    subst (λ x. accepts x destroyed ≡ true) (some_inj (some_inj e)) refl
accepts-created_pre destroyed_changed s' true e = absurd (no_status (some_inj e))
accepts-created_pre destroyed_changed s' false e =
    subst (λ x. accepts x destroyed_changed ≡ true) (some_inj (some_inj e)) refl
accepts-created_pre destroyed_again s' h e =
    subst (λ x. accepts x destroyed_again ≡ true) (some_inj (some_inj e)) refl

account_info_change-IsAccepted :
    (f : AccountInfo → AccountInfo) (a : CacheAccount)
    → IsAccepted a.status (account_info_change f a)
unfolding account_info_change
account_info_change-IsAccepted f a =
    accepts-on_changed a.status (info_test has_no_code_and_nonce (info_of a.account))

touch_empty-IsAccepted :
    (a : CacheAccount) (o : Option AccountStatus)
    → on_touched_empty_post_eip161 a.status ≡ o
    → IsAccepted a.status (elim o as (λ _. CacheStep) [
      | none ↦ none
      | some status ↦
          let self' : CacheAccount = record { account = none; status = status } in
          some (if is_gone a.status then (self', none) else transition_to a [] true self')
    ])
touch_empty-IsAccepted a none e = tt
touch_empty-IsAccepted a (some s') e =
    pair-IsAccepted a.status (is_gone a.status) _ _ tt λ g. accepts-touched a.status s' e g

touch_create-IsAccepted :
    (a : CacheAccount) (storage : Storage) (account : Option PlainAccount)
    (o : Option (Option AccountStatus))
    → on_touched_created_pre_eip161 a.status (info_test is_empty (info_of a.account)) ≡ o
    → IsAccepted a.status (elim o as (λ _. CacheStep) [
      | none ↦ none
      | some none ↦ some (a, none)
      | some (some status) ↦
          some (transition_to a storage false (record { account = account; status = status }))
    ])
touch_create-IsAccepted a storage account none e = tt
touch_create-IsAccepted a storage account (some none) e = tt
touch_create-IsAccepted a storage account (some (some s')) e = accepts-created_pre a.status s' _ e

run_cache_op-IsAccepted :
    (op : CacheOp) (a : CacheAccount)
    → is_refused op a.status ≡ false
    → IsAccepted a.status (run_cache_op op a)
unfolding run_cache_op change newly_created selfdestruct touch_empty_eip161 touch_create_pre_eip161
    increment_balance drain_balance
run_cache_op-IsAccepted (change_to info storage) a h =
    accepts-on_changed a.status (info_test has_no_code_and_nonce (info_of a.account))
run_cache_op-IsAccepted (create_as info storage) a h = accepts-on_created a.status info storage h
run_cache_op-IsAccepted destroy a h =
    pair-IsAccepted a.status (is_not_existing a.status) _ _ tt
      λ g. accepts-on_selfdestructed a.status
run_cache_op-IsAccepted touch_empty a h = touch_empty-IsAccepted a _ refl
run_cache_op-IsAccepted (touch_create storage) a h = touch_create-IsAccepted a storage _ _ refl
run_cache_op-IsAccepted (add_balance token_id value) a h =
    if-IsAccepted a.status (value == 0) _ _ tt
      (account_info_change-IsAccepted (increase_balance token_id value) a)
run_cache_op-IsAccepted (drain token_id) a h =
    if-IsAccepted a.status
      (ltb (get_balance token_id (unwrap_or default_info (info_of a.account))) (2 ^ 128))
      (account_info_change (set_balance token_id 0) a) none
      (account_info_change-IsAccepted (set_balance token_id 0) a) tt

-- If an operation of a cache account gives a transition, then its update of an account of the bundle
-- with the status that the cache account had does not reach an unreachable arm. The operation is not
-- a creation over an account with the status Changed.
pub update_and_create_revert-run_cache_op :
    (op : CacheOp) (a a' : CacheAccount) (t : TransitionAccount) (b : BundleAccount)
    → run_cache_op op a ≡ some (a', some t)
    → b.status ≡ a.status
    → is_refused op a.status ≡ false
    → is_some (update_and_create_revert t b) ≡ true
update_and_create_revert-run_cache_op op a a' t b e s h =
    is_some-update t b
      (ap (accepts t.status) s ∙ subst (IsAccepted a.status) e (run_cache_op-IsAccepted op a h))
