-- ===== src/Journal/Undo/Accounts.antt =====
-- The proofs about undoing the loading, the touching and the counting up of an account.
use sabvm.Prelude.{
  ℕ, ◌+◌, ◌-◌, ◌%◌, ◌<◌, Bool, false, not, [], ◌∷◌, ◌++◌, Option, none, some, ◌≡◌, refl, ap, ◌∙◌,
  ◌==◌, arith, Bool-cases, inl, inr, u256_mod, u64_mod, ==_refl,
}
use sabvm.State.{Address, U256, Account, AccountInfo, mark_touch, get_balance, update}
use sabvm.Journal.{
  account_loaded, nonce_change, JournaledState, Run, done, world, M, ◌>>=◌, ◌>>◌, pure, push_entry,
  put_account, set_accounts, Database, DbResult, value, failed, query, touch, increment, inc_nonce,
  load_account, loaded_account, touch_account,
}
use sabvm.Journal.View.{AccountView, WorldView, account_view, view, put_view, accounts-view}
use sabvm.Journal.Restore.{revert_view}
use sabvm.Journal.Algebra.{modify_view-put_view}
use sabvm.Journal.Undo.{
  Undoes, Undoes-refl, Fits, Fits-put_view, dragon, view_of, Post, returns, fails, restore_both,
  revert_one,
}
use sabvm.Journal.Undo.Touch.{
  Changes, Changes-trans, Changes-Undoes, put_account-Changes, put_account-view, get_account-Post,
  push_entry-Post, touch_account-Post, touch_entries, touch_entries_back,
}
use sabvm.Journal.Undo.Transfer.{
  touched_view, written_again, touch_Undoes, Fits-touched, Fits-touched_nonce,
}

-- The answers of a database are machine integers, as their types in the source say.
pub record InRange (db : Database) : Type 0 where
  pub balances :
      (a : Address) (info : AccountInfo)
      → db.basic a ≡ value (some info)
      → (t : U256) → get_balance t info < u256_mod
  pub nonces :
      (a : Address) (info : AccountInfo) → db.basic a ≡ value (some info) → info.nonce < u64_mod

abbrev pub Kept : {A : Type 0} → JournaledState → Run A → Type 0
Kept s = Post (λ _ s'. Undoes s s') (λ s'. Undoes s s')

-- What an address holds once its account was loaded.
abbrev pub Loaded : Address → Account × Bool → JournaledState → JournaledState → Type 0
Loaded a (acc, cold) s s' = Undoes s s' × (s'.state.accounts a ≡ some acc)

pub query-Post :
    {A B : Type 0} {R : B → JournaledState → Type 0} {E : JournaledState → Type 0} (r : DbResult A)
    (f : A → M B) (s : JournaledState)
    → E s
    → ((x : A) → r ≡ value x → Post R E (f x s))
    → Post R E ((query r >>= f) s)
query-Post (value x) f s e h = h x refl
query-Post failed f s e h = fails e

-- The view of a world without the account at an address.
remove_view : Address → WorldView → WorldView
remove_view a v = record v { accounts = update v.accounts a none }

removed_back :
    (a : Address) (x : AccountView) (v : WorldView)
    → v.accounts a ≡ none
    → remove_view a (put_view a x v) ≡ v
unfolding remove_view put_view
removed_back a x v h = λ i. record v { accounts = λ j. back j i }
  where
    back : (j : Address) → update (update v.accounts a (some x)) a none j ≡ v.accounts j
    back j = ground (arith, h)

-- The account that an answer of the database becomes is in range.
loaded_balances :
    (db : Database) (a : Address) (basic : Option AccountInfo)
    → InRange db
    → db.basic a ≡ value basic
    → (t : U256) → (account_view a (loaded_account basic)).balance t < u256_mod
unfolding account_view get_balance
loaded_balances db a none r e t = omega arith
loaded_balances db a (some info) r e t = r.balances a info e t

loaded_nonce :
    (db : Database) (a : Address) (basic : Option AccountInfo)
    → InRange db
    → db.basic a ≡ value basic
    → (account_view a (loaded_account basic)).nonce < u64_mod
unfolding account_view
loaded_nonce db a none r e = omega arith
loaded_nonce db a (some info) r e = r.nonces a info e

view-missing :
    (a : Address) (s : JournaledState) → s.state.accounts a ≡ none → (view_of s).accounts a ≡ none
unfolding view
view-missing a s e = rw e

-- Loading an account is undone by its entries if it returns or ends in an error of the database,
-- and if it returns, the account that it gives is in the state. The numbers of the state before
-- are in range and the database answers with machine integers.
pub load_account-Loaded :
    (db : Database) (a : Address) (s : JournaledState)
    → InRange db
    → Fits (view_of s)
    → Post (λ r s'. Loaded a r s s') (λ s'. Undoes s s') (load_account db a s)
unfolding load_account
load_account-Loaded db a s r h = go (s.state.accounts a) refl
  where
    load : M (Account × Bool)
    load = do
      basic ← query (db.basic a)
      push_entry (account_loaded a)
      put_account a (loaded_account basic)
      pure (loaded_account basic, not (s.warm_preloaded_addresses a))

    back :
        (basic : Option AccountInfo) (s2 : JournaledState)
        → s.state.accounts a ≡ none
        → view_of s2 ≡ put_view a (account_view a (loaded_account basic)) (view_of s)
        → revert_view (dragon s) (account_loaded a) (view_of s2) ≡ some (view_of s)
    back basic s2 e seen =
        unfold revert_view remove_view in
        rw seen (ap some (removed_back a _ (view_of s) (view-missing a s e)))

    go :
        (o : Option Account)
        → s.state.accounts a ≡ o
        → Post
            (λ r s'. Loaded a r s s')
            (λ s'. Undoes s s')
            (elim o [ some account ↦ done (account, false) s | none ↦ load s ])
    go (some acc) e = returns (Undoes-refl s h, e)
    go none e = query-Post (db.basic a) _ s (Undoes-refl s h) λ basic eb.
        push_entry-Post (account_loaded a) _ s λ s1 c same.
          let s2 = set_accounts (update s1.state.accounts a (some (loaded_account basic))) s1 in
          let seen =
            put_account-view a (loaded_account basic) s1
            ∙ ap (λ w. put_view a (account_view a (loaded_account basic)) (view w)) same in
          returns (
            Changes-Undoes (account_loaded a ∷ [])
                (put_account-Changes a (loaded_account basic) (account_loaded a ∷ []) c)
                (revert_one (dragon s) (account_loaded a) (view_of s2) (view_of s)
                  (back basic s2 e seen))
                (rw seen (
                  Fits-put_view a _ (view_of s) h (loaded_balances db a basic r eb)
                    (loaded_nonce db a basic r eb))),
            rw ==_refl,
          )

-- Touching an address, loaded or not.
pub touch-Kept : (a : Address) (s : JournaledState) → Fits (view_of s) → Kept s (touch a s)
unfolding touch
touch-Kept a s h = go (s.state.accounts a) refl
  where
    go :
        (o : Option Account)
        → s.state.accounts a ≡ o
        → Kept s (elim o [ none ↦ done tt s | some acc ↦ (touch_account a acc >> pure tt) s ])
    go none e = returns (Undoes-refl s h)
    go (some acc) e =
        touch_account-Post a acc _ s e
          λ s1 c found seen. returns (touch_Undoes a acc s s1 h e c seen)

abbrev with_nonce : ℕ → AccountView → AccountView
with_nonce n x = record x { nonce = n }

counted-view :
    (a : Address) (acc : Account) (n : ℕ)
    → account_view a (record acc { info = record (acc.info) { nonce = n } })
      ≡ with_nonce n (account_view a acc)
unfolding account_view get_balance
counted-view a acc n = refl

abbrev up : ℕ → ℕ
up n = (n + 1) % u64_mod

abbrev down : ℕ → ℕ
down n = (n + u64_mod - 1) % u64_mod

counted_back :
    (d : Bool) (a : Address) (x : AccountView) (v : WorldView)
    → x.nonce < u64_mod
    → revert_view d (nonce_change a) (put_view a (with_nonce (up x.nonce) x) v)
      ≡ some (put_view a x v)
unfolding revert_view
counted_back d a x v h =
    modify_view-put_view a (λ y. with_nonce (down y.nonce) y) (with_nonce (up x.nonce) x) v
    ∙ ap (λ n. some (put_view a (with_nonce n x) v)) (omega arith)

counted_Undoes :
    (a : Address) (acc : Account) (s s3 : JournaledState)
    → Fits (view_of s)
    → s.state.accounts a ≡ some acc
    → Changes s ((nonce_change a ∷ []) ++ touch_entries a acc) s3
    → view_of s3
      ≡ put_view a (with_nonce (up (touched_view a acc).nonce) (touched_view a acc)) (view_of s)
    → Undoes s s3
counted_Undoes a acc s s3 h e c seen =
    Changes-Undoes ((nonce_change a ∷ []) ++ touch_entries a acc) c
      (restore_both (dragon s) (nonce_change a ∷ []) (touch_entries a acc) (view_of s3)
        (revert_one (dragon s) (nonce_change a) (view_of s3)
          (put_view a (touched_view a acc) (view_of s))
          (rw seen (
            counted_back (dragon s) a (touched_view a acc) (view_of s)
              (Fits-touched_nonce a acc s h e))))
        (touch_entries_back (dragon s) a acc (view_of s) (accounts-view a acc (world s) e)))
      (rw seen (Fits-put_view a _ (view_of s) h (Fits-touched a acc s h e) (omega arith)))

-- From a state whose numbers are in range, an `inc_nonce` that returns is undone by its entries,
-- whether it counts up or finds the nonce at its maximum.
pub inc_nonce-Kept : (a : Address) (s : JournaledState) → Fits (view_of s) → Kept s (inc_nonce a s)
unfolding inc_nonce
inc_nonce-Kept a s h = get_account-Post a _ s λ acc e.
    elim (Bool-cases (acc.info.nonce == u64_mod - 1)) [
      | inl full ↦ rw full (returns (Undoes-refl s h))
      | inr below ↦ rw below (counted acc e)
    ]
  where
    counted : (acc : Account) → s.state.accounts a ≡ some acc → Kept s (increment a acc s)
    counted acc e = touch_account-Post a acc _ s e λ s1 c found seen.
        push_entry-Post (nonce_change a) _ s1 λ s2 c2 same.
          let acc' = record (mark_touch acc) {
            info = record ((mark_touch acc).info) { nonce = up acc.info.nonce };
          } in
          returns (
            counted_Undoes a acc s _ h e (put_account-Changes a acc' _ (Changes-trans _ _ c c2)) (
              written_again a acc' _ _ s s2 (ap view same ∙ seen)
                (unfold account_view in counted-view a (mark_touch acc) (up acc.info.nonce))))
