-- ===== src/Journal/Undo/Code.antt =====
-- What the reversal of `set_code` gives back, and the proofs about undoing it.
use sabvm.Prelude.{
  Bool, some_inj, subst, ==_iff, true, List, [], ◌∷◌, ◌++◌, some, ◌≡◌, refl, ap, sym, ◌∙◌, ◌==◌,
}
use sabvm.State.{Address, U256, Account, Bytecode, mark_touch, keccak_empty, get_balance}
use sabvm.Journal.{
  code_change, JournalEntry, JournaledState, Run, world, Crypto, hash_slow, set_code,
  journal_revert,
}
use sabvm.Journal.View.{
  AccountView, WorldView, account_view, view, put_view, accounts-view, map_option,
}
use sabvm.Journal.Restore.{journal_revert_view, revert_view, journal_revert-view}
use sabvm.Journal.Algebra.{
  modify_view-put_view, put_view_same, put_view_twice, accounts-put_view_self,
}
use sabvm.Journal.Undo.{
  Undoes, Fits, Fits-put_view, dragon, view_of, Post, returns, fails, panics, restore_both,
  revert_one,
}
use sabvm.Journal.Undo.Touch.{
  Changes, Changes-trans, Changes-Undoes, put_account-Changes, get_account-Post, push_entry-Post,
  touch_account-Post, touch_entries, touch_entries_back,
}
use sabvm.Journal.Undo.Transfer.{touched_view, written_again, Fits-touched, Fits-touched_nonce}

abbrev pub with_code_hash : U256 → AccountView → AccountView
with_code_hash hash x = record x { code_hash = hash }

abbrev pub coded : Crypto → Bytecode → Account → Account
coded crypto code acc = record acc {
  info = record (acc.info) { code_hash = hash_slow crypto code; code = some code };
}

coded-view :
    (crypto : Crypto) (code : Bytecode) (a : Address) (acc : Account)
    → account_view a (coded crypto code acc)
      ≡ with_code_hash (hash_slow crypto code) (account_view a acc)
unfolding account_view get_balance
coded-view crypto code a acc = refl

-- The entries on the last part lead from the second state to a world with the view.
abbrev pub LeadsBack : JournaledState → WorldView → JournaledState → Type 0
LeadsBack s v s' =
    (entries : List JournalEntry) × Changes s entries s'
    × (map_option view (journal_revert (dragon s) entries (world s')) ≡ some v)

-- The account without its code.
uncoded : Account → Account
uncoded acc = record acc { info = record (acc.info) { code_hash = keccak_empty } }

uncoded-view :
    (a : Address) (acc : Account)
    → account_view a (uncoded acc) ≡ with_code_hash keccak_empty (account_view a acc)
unfolding account_view get_balance uncoded
uncoded-view a acc = refl

uncoded_touched-view :
    (a : Address) (acc : Account)
    → account_view a (mark_touch (uncoded acc)) ≡ with_code_hash keccak_empty (touched_view a acc)
unfolding account_view get_balance uncoded mark_touch
uncoded_touched-view a acc = refl

abbrev set_code_entries : Address → Account → List JournalEntry
set_code_entries a acc = (code_change a ∷ []) ++ touch_entries a acc

module _ (d : Bool) (a : Address) (acc : Account) (hash : U256) (v : WorldView) where
  code_change_back :
      revert_view d (code_change a) (put_view a (with_code_hash hash (touched_view a acc)) v)
      ≡ some (put_view a (with_code_hash keccak_empty (touched_view a acc)) v)
  unfolding revert_view
  code_change_back =
      modify_view-put_view a (with_code_hash keccak_empty)
        (with_code_hash hash (touched_view a acc)) v

  set_code_entries_back :
      journal_revert_view d
        (set_code_entries a acc)
        (put_view a (with_code_hash hash (touched_view a acc)) v)
      ≡ some (put_view a (with_code_hash keccak_empty (account_view a acc)) v)
  set_code_entries_back =
      restore_both d (code_change a ∷ []) (touch_entries a acc) _
        (revert_one d (code_change a) _ _ code_change_back) untouched
    where
      untouched :
          journal_revert_view d
            (touch_entries a acc)
            (put_view a (with_code_hash keccak_empty (touched_view a acc)) v)
          ≡ some (put_view a (with_code_hash keccak_empty (account_view a acc)) v)
      untouched =
          unfold uncoded in
          ap (journal_revert_view d (touch_entries a acc)) (
            ap (λ x. put_view a x v) (sym (uncoded_touched-view a acc))
            ∙ sym (put_view_twice a (account_view a (uncoded acc)) _ v))
          ∙ touch_entries_back d a (uncoded acc) (put_view a (account_view a (uncoded acc)) v)
              (accounts-put_view_self a (account_view a (uncoded acc)) v)
          ∙ ap (λ x. some (put_view a x v)) (uncoded-view a acc)

same_hash :
    (a : Address) (acc : Account)
    → acc.info.code_hash ≡ keccak_empty
    → with_code_hash keccak_empty (account_view a acc) ≡ account_view a acc
unfolding account_view
same_hash a acc h = λ i. record (account_view a acc) { code_hash = sym h i }

-- What a `set_code` that returns has done.
record IsCoded (crypto : Crypto) (a : Address) (code : Bytecode) (acc : Account)
    (s s' : JournaledState) : Type 0 where
  changes : Changes s (set_code_entries a acc) s'
  seen :
      view_of s'
      ≡ put_view a (with_code_hash (hash_slow crypto code) (touched_view a acc)) (view_of s)

set_code-IsCoded :
    (crypto : Crypto) (a : Address) (code : Bytecode) (s : JournaledState)
    → Post
        (λ _ s'. (acc : Account) × (s.state.accounts a ≡ some acc) × IsCoded crypto a code acc s s')
        (λ _. ⊥)
        (set_code crypto a code s)
unfolding set_code
set_code-IsCoded crypto a code s = get_account-Post a _ s λ acc e.
    touch_account-Post a acc _ s e λ s1 c found seen.
      push_entry-Post (code_change a) _ s1 λ s2 c2 same. returns (
        acc,
        e,
        record {
          changes =
              put_account-Changes a (coded crypto code (mark_touch acc)) _ (Changes-trans _ _ c c2);
          seen =
              written_again a (coded crypto code (mark_touch acc)) _ _ s s2 (ap view same ∙ seen)
                (coded-view crypto code a (mark_touch acc));
        },
      )

-- For a loaded account, a `set_code` that returns gives the account the hash of the code and
-- touches it, and all else in the view stays. The entries that it pushes, and `journal_revert` on
-- them, lead back to the view before with one difference: the account's code hash is then that of
-- no code, whatever it was. It meets no error of the database.
pub set_code-reverted :
    (crypto : Crypto) (a : Address) (code : Bytecode) (s : JournaledState) (acc : Account)
    → s.state.accounts a ≡ some acc
    → Post
        (λ _ s'.
          (view_of s'
            ≡ put_view a (with_code_hash (hash_slow crypto code) (touched_view a acc)) (view_of s))
          × LeadsBack s
              (put_view a (with_code_hash keccak_empty (account_view a acc)) (view_of s))
              s')
        (λ _. ⊥)
        (set_code crypto a code s)
set_code-reverted crypto a code s acc e = go (set_code-IsCoded crypto a code s)
  where
    go :
        {A : Type 0} {r : Run A}
        → Post
            (λ _ s'.
              (acc' : Account) × (s.state.accounts a ≡ some acc') × IsCoded crypto a code acc' s s')
            (λ _. ⊥)
            r
        → Post
            (λ _ s'.
              (view_of s'
                ≡ put_view a
                    (with_code_hash (hash_slow crypto code) (touched_view a acc))
                    (view_of s))
              × LeadsBack s
                  (put_view a (with_code_hash keccak_empty (account_view a acc)) (view_of s))
                  s')
            (λ _. ⊥)
            r
    go (returns {s = s'} (acc', e', c)) =
        let c' : IsCoded crypto a code acc s s' =
          subst (λ x. IsCoded crypto a code x s s') (some_inj (sym e' ∙ e)) c in
        returns (
          c'.seen,
          (
            set_code_entries a acc,
            c'.changes,
            journal_revert-view (dragon s) (set_code_entries a acc) (world s')
                ∙ ap (journal_revert_view (dragon s) (set_code_entries a acc)) c'.seen
                ∙ set_code_entries_back (dragon s) a acc (hash_slow crypto code) (view_of s),
          ),
        )
    go (fails x) = elim x [ ]
    go panics = panics

-- The code of an account without code is undone wholly.
pub set_code-Kept :
    (crypto : Crypto) (a : Address) (code : Bytecode) (s : JournaledState)
    → Fits (view_of s)
    → Post
        (λ _ s'.
          (acc : Account) × (s.state.accounts a ≡ some acc)
          × ((acc.info.code_hash == keccak_empty) ≡ true → Undoes s s'))
        (λ _. ⊥)
        (set_code crypto a code s)
set_code-Kept crypto a code s h = go (set_code-IsCoded crypto a code s)
  where
    go :
        {A : Type 0} {r : Run A}
        → Post
            (λ _ s'.
              (acc : Account) × (s.state.accounts a ≡ some acc) × IsCoded crypto a code acc s s')
            (λ _. ⊥)
            r
        → Post
            (λ _ s'.
              (acc : Account) × (s.state.accounts a ≡ some acc)
              × ((acc.info.code_hash == keccak_empty) ≡ true → Undoes s s'))
            (λ _. ⊥)
            r
    go (returns {s = s'} (acc, e, c)) = returns (
      acc,
      e,
      λ empty.
          Changes-Undoes (set_code_entries a acc) c.changes
            (ap (journal_revert_view (dragon s) (set_code_entries a acc)) c.seen
              ∙ set_code_entries_back (dragon s) a acc (hash_slow crypto code) (view_of s)
              ∙ ap some (
                  put_view_same a (with_code_hash keccak_empty (account_view a acc)) (view_of s) (
                    accounts-view a acc (world s) e
                    ∙ ap some (sym (same_hash a acc ((==_iff _ _).0 empty))))))
            (rw (c.seen) (
              Fits-put_view a _ (view_of s) h (Fits-touched a acc s h e)
                (Fits-touched_nonce a acc s h e))),
    )
    go (fails x) = elim x [ ]
    go panics = panics
