-- ===== src/Journal/Undo/Transfer.antt =====
-- The proofs about undoing a transfer of one token, and a list of transfers.
use sabvm.Prelude.{
  ◌+◌, ◌-◌, ◌≤◌, ◌<◌, Bool, true, false, Option, some, ◌≡◌, refl, ap, sym, ◌∙◌, ◌==◌, leb,
  if◌then◌else◌, arith, Bool-cases, inl, inr, ==_refl, checked_add, checked_sub, u256_mod, u64_mod,
  wrapping_add_exact, wrapping_sub_exact, wrapping_add-lt, wrapping_sub-lt, ltb, leb→le, ltb→lt,
}
use sabvm.State.{Address, U256, Account, update, mark_touch, get_balance}
use sabvm.Journal.{
  balance_transfer, JournaledState, world, M, ◌>>=◌, touch_account, set_accounts, get_account,
  debit, credit, with_balance,
}
use sabvm.Journal.View.{AccountView, WorldView, account_view, put_view, modify_view, accounts-view}
use sabvm.Journal.Restore.{
  revert_view, ◌then_view◌, increase_view, decrease_view, set_balance_view, set_balance-view,
}
use sabvm.Journal.Algebra.{
  modify_view-put_view, put_view_twice, put_view_swap, increase_view-decrease,
  decrease_view-increase,
}
use sabvm.Journal.Undo.{Undoes, Fits, Fits-put_view, dragon, view_of, Post}
use sabvm.Journal.Undo.Touch.{
  Changes, Changes-Undoes, put_account-Changes, put_account-view, assoc-Post, get_account-Post,
  touch_account-Post, touch_entries, touch_entries_back,
}

abbrev pub touched_view : Address → Account → AccountView
touched_view a acc = account_view a (mark_touch acc)

pub balance-lt :
    (a : Address) (acc : Account) (t : U256) (s : JournaledState)
    → Fits (view_of s)
    → s.state.accounts a ≡ some acc
    → get_balance t acc.info < u256_mod
unfolding account_view
balance-lt a acc t s h e = h.balances a (account_view a acc) (accounts-view a acc (world s) e) t

-- Undoing a transfer between two accounts, and from an account to itself.
module _ (d : Bool) (from to : Address) (t amount : U256) (x y : AccountView) (v : WorldView)
    (hx : (u : U256) → x.balance u < u256_mod) (hy : (u : U256) → y.balance u < u256_mod)
    (ha : amount < u256_mod) where
  pub transfer_back_ne :
      (to == from) ≡ false
      → revert_view d
          (balance_transfer from to t amount)
          (put_view to (increase_view t amount y) (put_view from (decrease_view t amount x) v))
        ≡ some (put_view to y (put_view from x v))
  unfolding revert_view
  transfer_back_ne ne =
      ap (λ w. modify_view from (increase_view t amount) w then_view give_back)
        (put_view_swap from to _ _ v (ground (arith, ne)))
      ∙ ap (λ o. o then_view give_back)
          (modify_view-put_view from (increase_view t amount) _ _
            ∙ ap (λ z. some (put_view from z (put_view to (increase_view t amount y) v)))
                (increase_view-decrease t amount x hx ha))
      ∙ ap give_back (sym (put_view_swap from to x _ v (ground (arith, ne))))
      ∙ modify_view-put_view to (decrease_view t amount) _ _
      ∙ ap (λ z. some (put_view to z (put_view from x v))) (decrease_view-increase t amount y hy ha)
    where
      give_back : WorldView → Option WorldView
      give_back = modify_view to (decrease_view t amount)

pub transfer_back_self :
    (d : Bool) (a : Address) (t amount : U256) (x : AccountView) (v : WorldView)
    → ((u : U256) → x.balance u < u256_mod)
    → amount < u256_mod
    → revert_view d (balance_transfer a a t amount) (
        put_view a
          (increase_view t amount (decrease_view t amount x))
          (put_view a (decrease_view t amount x) v))
      ≡ some (put_view a x v)
unfolding revert_view
transfer_back_self d a t amount x v hx ha =
    ap (λ w. modify_view a (increase_view t amount) w then_view give_back)
      (put_view_twice a _ _ v ∙ ap (λ z. put_view a z v) (increase_view-decrease t amount x hx ha))
    ∙ ap (λ o. o then_view give_back) (modify_view-put_view a (increase_view t amount) x v)
    ∙ modify_view-put_view a (decrease_view t amount) _ v
    ∙ ap (λ z. some (put_view a z v)) (decrease_view-increase t amount x hx ha)
  where
    give_back : WorldView → Option WorldView
    give_back = modify_view a (decrease_view t amount)

-- A balance written as the source computes it, in the words of the abstract view.
pub decreased-view :
    (a : Address) (t amount : U256) (acc : Account)
    → get_balance t acc.info < u256_mod
    → amount ≤ get_balance t acc.info
    → account_view a (with_balance acc t (get_balance t acc.info - amount))
      ≡ decrease_view t amount (account_view a acc)
unfolding decrease_view account_view
decreased-view a t amount acc fits enough =
    set_balance-view a t (get_balance t acc.info - amount) acc
    ∙ ap (λ b. set_balance_view t b (account_view a acc))
        (sym (wrapping_sub_exact (get_balance t acc.info) amount fits enough))

pub increased-view :
    (a : Address) (t amount : U256) (acc : Account)
    → get_balance t acc.info + amount < u256_mod
    → account_view a (with_balance acc t (get_balance t acc.info + amount))
      ≡ increase_view t amount (account_view a acc)
unfolding increase_view account_view
increased-view a t amount acc fits =
    set_balance-view a t (get_balance t acc.info + amount) acc
    ∙ ap (λ b. set_balance_view t b (account_view a acc))
        (sym (wrapping_add_exact (get_balance t acc.info) amount fits))

abbrev pub IsTouched : Address → JournaledState → Type 0
IsTouched a s = (acc : Account) × (s.state.accounts a ≡ some acc) × (acc.status.touched ≡ true)

-- A second write of an account.
pub written_again :
    (a : Address) (acc : Account) (x y : AccountView) (s s1 : JournaledState)
    → view_of s1 ≡ put_view a x (view_of s)
    → account_view a acc ≡ y
    → view_of (set_accounts (update s1.state.accounts a (some acc)) s1) ≡ put_view a y (view_of s)
written_again a acc x y s s1 seen e =
    put_account-view a acc s1
    ∙ ap (put_view a (account_view a acc)) seen
    ∙ put_view_twice a x (account_view a acc) (view_of s)
    ∙ ap (λ z. put_view a z (view_of s)) e

module _ {B : Type 0} {R : B → JournaledState → Type 0} {E : JournaledState → Type 0} (a : Address)
    (t amount : U256) (f : Bool → M B) (s : JournaledState) (h : Fits (view_of s)) where
  -- What follows `debit`: the account is touched, and debited if its balance is enough.
  pub debit-Post :
      ((acc : Account) (s' : JournaledState) (b : Bool)
        → s.state.accounts a ≡ some acc
        → Changes s (touch_entries a acc) s'
        → b ≡ leb amount (get_balance t acc.info)
        → view_of s'
          ≡ put_view a
              (if b then decrease_view t amount (touched_view a acc) else touched_view a acc)
              (view_of s)
        → IsTouched a s'
        → Post R E (f b s'))
      → Post R E ((debit a t amount >>= f) s)
  unfolding debit checked_sub mark_touch
  debit-Post k = assoc-Post (get_account a s) _ f (
      get_account-Post a _ s λ acc e. assoc-Post (touch_account a acc s) _ f (
        touch_account-Post a acc _ s e λ s1 c found seen.
          elim (Bool-cases (leb amount (get_balance t acc.info))) [
            | inl enough ↦
                let acc' = with_balance (mark_touch acc) t (get_balance t acc.info - amount) in
                rw enough (
                  k acc (set_accounts (update s1.state.accounts a (some acc')) s1) true e
                    (put_account-Changes a acc' (touch_entries a acc) c) (sym enough)
                    (written_again a acc' _ _ s s1 seen (
                      decreased-view a t amount (mark_touch acc) (balance-lt a acc t s h e)
                        (leb→le amount _ enough)))
                    (acc', rw ==_refl, refl))
            | inr short ↦
                rw short (k acc s1 false e c (sym short) seen (mark_touch acc, found, refl))
          ]))

  -- What follows `credit`.
  pub credit-Post :
      ((acc : Account) (s' : JournaledState) (b : Bool)
        → s.state.accounts a ≡ some acc
        → Changes s (touch_entries a acc) s'
        → b ≡ ltb (get_balance t acc.info + amount) u256_mod
        → view_of s'
          ≡ put_view a
              (if b then increase_view t amount (touched_view a acc) else touched_view a acc)
              (view_of s)
        → IsTouched a s'
        → Post R E (f b s'))
      → Post R E ((credit a t amount >>= f) s)
  unfolding credit checked_add mark_touch
  credit-Post k = assoc-Post (get_account a s) _ f (
      get_account-Post a _ s λ acc e. assoc-Post (touch_account a acc s) _ f (
        touch_account-Post a acc _ s e λ s1 c found seen.
          elim (Bool-cases (ltb (get_balance t acc.info + amount) u256_mod)) [
            | inl enough ↦
                let acc' = with_balance (mark_touch acc) t (get_balance t acc.info + amount) in
                rw enough (
                  k acc (set_accounts (update s1.state.accounts a (some acc')) s1) true e
                    (put_account-Changes a acc' (touch_entries a acc) c) (sym enough)
                    (written_again a acc' _ _ s s1 seen (
                      increased-view a t amount (mark_touch acc)
                        (ltb→lt (get_balance t acc.info + amount) u256_mod enough)))
                    (acc', rw ==_refl, refl))
            | inr short ↦
                rw short (k acc s1 false e c (sym short) seen (mark_touch acc, found, refl))
          ]))

-- The view of a touched or changed account is in range if the account was.
pub Fits-touched :
    (a : Address) (acc : Account) (s : JournaledState)
    → Fits (view_of s)
    → s.state.accounts a ≡ some acc
    → (t : U256) → (touched_view a acc).balance t < u256_mod
unfolding account_view mark_touch
Fits-touched a acc s h e t = balance-lt a acc t s h e

pub increase_view-lt :
    (t amount : U256) (x : AccountView)
    → ((u : U256) → x.balance u < u256_mod)
    → (u : U256) → (increase_view t amount x).balance u < u256_mod
unfolding increase_view set_balance_view
increase_view-lt t amount x h u = ground (arith, h u, wrapping_add-lt (x.balance t) amount)

pub decrease_view-lt :
    (t amount : U256) (x : AccountView)
    → ((u : U256) → x.balance u < u256_mod)
    → (u : U256) → (decrease_view t amount x).balance u < u256_mod
unfolding decrease_view set_balance_view
decrease_view-lt t amount x h u = ground (arith, h u, wrapping_sub-lt (x.balance t) amount)

pub increase_view-nonce :
    (t amount : U256) (x : AccountView)
    → x.nonce < u64_mod
    → (increase_view t amount x).nonce < u64_mod
unfolding increase_view set_balance_view
increase_view-nonce t amount x h = h

pub decrease_view-nonce :
    (t amount : U256) (x : AccountView)
    → x.nonce < u64_mod
    → (decrease_view t amount x).nonce < u64_mod
unfolding decrease_view set_balance_view
decrease_view-nonce t amount x h = h

pub Fits-touched_nonce :
    (a : Address) (acc : Account) (s : JournaledState)
    → Fits (view_of s)
    → s.state.accounts a ≡ some acc
    → (touched_view a acc).nonce < u64_mod
unfolding account_view mark_touch
Fits-touched_nonce a acc s h e = h.nonces a (account_view a acc) (accounts-view a acc (world s) e)

-- A touch is undone by its entries.
pub touch_Undoes :
    (a : Address) (acc : Account) (s s1 : JournaledState)
    → Fits (view_of s)
    → s.state.accounts a ≡ some acc
    → Changes s (touch_entries a acc) s1
    → view_of s1 ≡ put_view a (touched_view a acc) (view_of s)
    → Undoes s s1
touch_Undoes a acc s s1 h e c seen =
    Changes-Undoes (touch_entries a acc) c
      (rw seen (touch_entries_back (dragon s) a acc (view_of s) (accounts-view a acc (world s) e)))
      (rw seen (
        Fits-put_view a (touched_view a acc) (view_of s) h (Fits-touched a acc s h e)
          (Fits-touched_nonce a acc s h e)))
