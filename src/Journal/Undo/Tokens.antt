-- ===== src/Journal/Undo/Tokens.antt =====
-- The proofs about undoing the changes of balances that `transfer` makes.
use sabvm.Prelude.{
  ◌<◌, Bool, true, false, [], ◌∷◌, ◌++◌, Option, some, ◌≡◌, ◌≢◌, refl, ap, sym, subst, ◌∙◌, ◌==◌,
  if◌then◌else◌, inl, inr, u256_mod, ==-cases, some_inj,
}
use sabvm.State.{Address, U256, Account}
use sabvm.Journal.{
  balance_transfer, JournaledState, Run, world, TokenTransfer, TransferError, overflow_payment,
  credit_recipient, record_transfer, transfer_token,
}
use sabvm.Journal.View.{account_view, view, put_view, accounts-view}
use sabvm.Journal.Restore.{journal_revert_view, revert_view, increase_view, decrease_view}
use sabvm.Journal.Algebra.{accounts-put_view_self, accounts-put_view_ne}
use sabvm.Journal.Undo.{
  Undoes, Fits, Fits-put_view, dragon, view_of, Post, returns, restore_both, revert_one,
}
use sabvm.Journal.Undo.Touch.{
  Changes, Changes-trans, Changes-Undoes, push_entry-Post, touch_entries, touch_entries_back,
  mark_touch_same,
}
use sabvm.Journal.Undo.Transfer.{
  touched_view, IsTouched, transfer_back_ne, transfer_back_self, Fits-touched, touch_Undoes,
  Fits-touched_nonce, increase_view-nonce, decrease_view-nonce, debit-Post, credit-Post,
  increase_view-lt, decrease_view-lt,
}

pub debited_Fits :
    (from : Address) (t amount : U256) (acc : Account) (s s1 : JournaledState)
    → Fits (view_of s)
    → s.state.accounts from ≡ some acc
    → view_of s1 ≡ put_view from (decrease_view t amount (touched_view from acc)) (view_of s)
    → Fits (view_of s1)
debited_Fits from t amount acc s s1 h e seen = rw seen (
    Fits-put_view from _ (view_of s) h
      (decrease_view-lt t amount (touched_view from acc) (Fits-touched from acc s h e))
      (decrease_view-nonce t amount (touched_view from acc) (Fits-touched_nonce from acc s h e)))

credited_Fits :
    (to : Address) (t amount : U256) (acc : Account) (s s1 : JournaledState)
    → Fits (view_of s)
    → s.state.accounts to ≡ some acc
    → view_of s1 ≡ put_view to (increase_view t amount (touched_view to acc)) (view_of s)
    → Fits (view_of s1)
credited_Fits to t amount acc s s1 h e seen = rw seen (
    Fits-put_view to _ (view_of s) h
      (increase_view-lt t amount (touched_view to acc) (Fits-touched to acc s h e))
      (increase_view-nonce t amount (touched_view to acc) (Fits-touched_nonce to acc s h e)))

-- Undoing a transfer, from the state after its two halves.
module _ (from to : Address) (t amount : U256) (acc acc2 : Account) (s s1 s2 : JournaledState)
    (h : Fits (view_of s)) (h1 : Fits (view_of s1)) (ha : amount < u256_mod)
    (e : s.state.accounts from ≡ some acc) (e2 : s1.state.accounts to ≡ some acc2)
    (seen : view_of s1 ≡ put_view from (decrease_view t amount (touched_view from acc)) (view_of s))
    (seen2 : view_of s2
      ≡ put_view to (increase_view t amount (touched_view to acc2)) (view_of s1)) where
  restore_ne :
      (d : Bool)
      → (to == from) ≡ false
      → journal_revert_view d
          ((balance_transfer from to t amount ∷ [])
            ++ (touch_entries to acc2 ++ touch_entries from acc))
          (view_of s2)
        ≡ some (view_of s)
  unfolding journal_revert_view
  restore_ne d ne =
      restore_both d (balance_transfer from to t amount ∷ []) _ (view_of s2)
        (revert_one d (balance_transfer from to t amount) _ _ undone)
        (restore_both d (touch_entries to acc2) (touch_entries from acc) _
          (touch_entries_back d to acc2 (put_view from (touched_view from acc) (view_of s))
            (accounts-put_view_ne from to (touched_view from acc) (view_of s) ne ∙ found))
          (touch_entries_back d from acc (view_of s) (accounts-view from acc (world s) e)))
    where
      undone :
          revert_view d (balance_transfer from to t amount) (view_of s2)
          ≡ some (
              put_view to
                (touched_view to acc2)
                (put_view from (touched_view from acc) (view_of s)))
      undone =
          rw (seen2, seen)
            (transfer_back_ne d from to t amount (touched_view from acc) (touched_view to acc2)
              (view_of s) (Fits-touched from acc s h e) (Fits-touched to acc2 s1 h1 e2) ha ne)

      found : (view_of s).accounts to ≡ some (account_view to acc2)
      found =
          sym (accounts-put_view_ne from to _ (view_of s) ne)
          ∙ ap (λ v. v.accounts to) (sym seen)
          ∙ accounts-view to acc2 (world s1) e2

-- The same from an account to itself.
module _ (a : Address) (t amount : U256) (acc acc2 : Account) (s s1 s2 : JournaledState)
    (h : Fits (view_of s)) (ha : amount < u256_mod) (e : s.state.accounts a ≡ some acc)
    (seen : view_of s1 ≡ put_view a (decrease_view t amount (touched_view a acc)) (view_of s))
    (touched2 : acc2.status.touched ≡ true) where
  restore_self :
      (d : Bool)
      → s1.state.accounts a ≡ some acc2
      → view_of s2 ≡ put_view a (increase_view t amount (touched_view a acc2)) (view_of s1)
      → journal_revert_view d
          ((balance_transfer a a t amount ∷ []) ++ (touch_entries a acc2 ++ touch_entries a acc))
          (view_of s2)
        ≡ some (view_of s)
  unfolding journal_revert_view
  restore_self d e2 seen2 =
      restore_both d (balance_transfer a a t amount ∷ []) _ (view_of s2)
        (revert_one d (balance_transfer a a t amount) _ _ undone)
        (rw touched2 (touch_entries_back d a acc (view_of s) (accounts-view a acc (world s) e)))
    where
      again : touched_view a acc2 ≡ decrease_view t amount (touched_view a acc)
      again =
          ap (account_view a) (mark_touch_same acc2 touched2)
          ∙ some_inj (
              sym (accounts-view a acc2 (world s1) e2)
              ∙ ap (λ v. v.accounts a) seen
              ∙ accounts-put_view_self a _ (view_of s))

      undone :
          revert_view d (balance_transfer a a t amount) (view_of s2)
          ≡ some (put_view a (touched_view a acc) (view_of s))
      undone =
          rw (seen2, again, seen)
            (transfer_back_self d a t amount (touched_view a acc) (view_of s)
              (Fits-touched a acc s h e) ha)

restore_transfer :
    (from to : Address) (t amount : U256) (acc acc2 : Account) (s s1 s2 : JournaledState)
    → Fits (view_of s)
    → Fits (view_of s1)
    → amount < u256_mod
    → s.state.accounts from ≡ some acc
    → IsTouched from s1
    → (d : Bool) → s1.state.accounts to ≡ some acc2
    → view_of s1 ≡ put_view from (decrease_view t amount (touched_view from acc)) (view_of s)
    → view_of s2 ≡ put_view to (increase_view t amount (touched_view to acc2)) (view_of s1)
    → journal_revert_view d
        ((balance_transfer from to t amount ∷ [])
          ++ (touch_entries to acc2 ++ touch_entries from acc))
        (view_of s2)
      ≡ some (view_of s)
restore_transfer from to t amount acc acc2 s s1 s2 h h1 ha e (acc1, e1, touched) d e2 seen seen2 =
    elim (==-cases to from) [
      | inr ne ↦ restore_ne from to t amount acc acc2 s s1 s2 h h1 ha e e2 seen seen2 d ne
      | inl same ↦
          subst
            (λ b.
              s1.state.accounts b ≡ some acc2
              → view_of s2 ≡ put_view b (increase_view t amount (touched_view b acc2)) (view_of s1)
              → journal_revert_view d
                  ((balance_transfer from b t amount ∷ [])
                    ++ (touch_entries b acc2 ++ touch_entries from acc))
                  (view_of s2)
                ≡ some (view_of s))
            (sym same)
            (λ e2 seen2.
              restore_self from t amount acc acc2 s s1 s2 h ha e seen (marked e2) d e2 seen2)
            e2 seen2
    ]
  where
    marked : s1.state.accounts from ≡ some acc2 → acc2.status.touched ≡ true
    marked e2 = subst (λ x. x.status.touched ≡ true) (some_inj (sym e1 ∙ e2)) touched

module _ (from to : Address) (tr : TokenTransfer) (s : JournaledState) (h : Fits (view_of s))
    (ha : tr.amount < u256_mod) where
  abbrev Undone : Run (Option TransferError) → Type 0
  Undone = Post (λ r s'. r ≢ some overflow_payment → Undoes s s') (λ _. ⊥)

  -- After the debit, the entry of the transfer comes last, or the receiver's balance overflows.
  after_debit :
      (acc : Account) (s1 : JournaledState)
      → s.state.accounts from ≡ some acc
      → Changes s (touch_entries from acc) s1
      → view_of s1
        ≡ put_view from (decrease_view tr.id tr.amount (touched_view from acc)) (view_of s)
      → IsTouched from s1
      → Undone (credit_recipient from to tr true s1)
  unfolding credit_recipient
  after_debit acc s1 e c seen touched =
      credit-Post to tr.id tr.amount _ s1 fits
        λ acc2 s2 b e2 c2 _ seen2 _. after_credit acc2 s2 b e2 c2 seen2
    where
      fits : Fits (view_of s1)
      fits = debited_Fits from tr.id tr.amount acc s s1 h e seen

      after_credit :
          (acc2 : Account) (s2 : JournaledState) (b : Bool)
          → s1.state.accounts to ≡ some acc2
          → Changes s1 (touch_entries to acc2) s2
          → view_of s2
            ≡ put_view to
                (if b
                  then increase_view tr.id tr.amount (touched_view to acc2)
                  else touched_view to acc2)
                (view_of s1)
          → Undone (record_transfer from to tr b s2)
      after_credit acc2 s2 true e2 c2 seen2 =
          push_entry-Post (balance_transfer from to tr.id tr.amount) _ s2 λ s3 c3 same. returns λ _.
            Changes-Undoes _
              (Changes-trans _ _
                (Changes-trans (touch_entries from acc) (touch_entries to acc2) c c2) c3)
              (rw (ap view same) (
                restore_transfer from to tr.id tr.amount acc acc2 s s1 s2 h fits ha e touched
                  (dragon s) e2 seen seen2))
              (rw (ap view same) (credited_Fits to tr.id tr.amount acc2 s1 s2 fits e2 seen2))
      after_credit acc2 s2 false e2 c2 seen2 =
          unfold record_transfer in returns (λ ne. absurd (ne refl))

  -- A transfer of one token, an insufficient balance included, is undone by its entries; only an
  -- overflow of the receiver's balance leaves the debit in place with no entry.
  pub transfer_token-Undoes : Undone (transfer_token from to tr s)
  unfolding transfer_token
  transfer_token-Undoes =
      debit-Post from tr.id tr.amount _ s h
        λ acc s1 b e c _ seen touched. go acc s1 b e c seen touched
    where
      go :
          (acc : Account) (s1 : JournaledState) (b : Bool)
          → s.state.accounts from ≡ some acc
          → Changes s (touch_entries from acc) s1
          → view_of s1
            ≡ put_view from
                (if b
                  then decrease_view tr.id tr.amount (touched_view from acc)
                  else touched_view from acc)
                (view_of s)
          → IsTouched from s1
          → Undone (credit_recipient from to tr b s1)
      go acc s1 true e c seen touched = after_debit acc s1 e c seen touched
      go acc s1 false e c seen touched =
          unfold credit_recipient in returns (λ _. touch_Undoes from acc s s1 h e c seen)
