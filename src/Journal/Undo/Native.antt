-- ===== src/Journal/Undo/Native.antt =====
-- The proofs about undoing the loading of the token ids, whole transfers and burning.
use sabvm.Prelude.{
  ℕ, ◌-◌, ◌≤◌, ◌<◌, Bool, true, false, List, [], ◌∷◌, Option, none, some, ◌≡◌, ◌≢◌, refl, ap, sym,
  ◌∙◌, ◌==◌, leb, arith, Bool-cases, inl, inr, u256_mod, checked_sub, leb→le,
}
use sabvm.State.{Address, U256, Account, update, get_balance}
use sabvm.Journal.{
  ◌>>◌, tokens_burned, token_ids_loaded, JournaledState, Run, done, world, M, ◌>>=◌, then_run, pure,
  push_entry, put_account, get_account, set_accounts, Database, query, Crypto, TokenTransfer,
  TransferError, overflow_payment, token_id_address, load_native_token_ids, set_token_ids,
  with_balance, load_account, transfer_loop, transfer, is_invalid, burn,
}
use sabvm.Journal.View.{account_view, view, put_view, accounts-view}
use sabvm.Journal.Restore.{revert_view, increase_view, decrease_view}
use sabvm.Journal.Algebra.{modify_view_back, increase_view-decrease}
use sabvm.Journal.Undo.{
  Undoes, Undoes-trans, Undoes-refl, Fits, Fits-put_view, dragon, view_of, Post, returns, fails,
  panics, revert_one,
}
use sabvm.Journal.Undo.Touch.{
  Changes, Changes-Undoes, put_account-view, Post-bind, get_account-Post, push_entry-Post,
}
use sabvm.Journal.Undo.Transfer.{balance-lt, decreased-view, decrease_view-lt, decrease_view-nonce}
use sabvm.Journal.Undo.Tokens.{transfer_token-Undoes}
use sabvm.Journal.Undo.Work.{Undoable, Undoable-bind, Undoable-guard, Undoable-is_err, Kept-after}
use sabvm.Journal.Undo.Accounts.{Kept, InRange, query-Post, load_account-Loaded}

pub load_account-Kept :
    (db : Database) (a : Address) (s : JournaledState)
    → InRange db
    → Fits (view_of s)
    → Kept s (load_account db a s)
load_account-Kept db a s r h = go (load_account-Loaded db a s r h)
  where
    go :
        {x : Run (Account × Bool)}
        → Post (λ r s'. Undoes s s' × (s'.state.accounts a ≡ some r.0)) (λ s'. Undoes s s') x
        → Kept s x
    go (returns (u, _)) = returns u
    go (fails u) = fails u
    go panics = panics

pub load_native_token_ids-Kept :
    (db : Database) (s : JournaledState) → Fits (view_of s) → Kept s (load_native_token_ids db s)
unfolding load_native_token_ids
load_native_token_ids-Kept db s h = go s.state.token_ids refl
  where
    load : M Bool
    load = do
      ids ← query db.get_token_ids
      set_token_ids ids
      push_entry (token_ids_loaded ids)
      pure true

    go :
        (ids : List U256)
        → s.state.token_ids ≡ ids
        → Kept s (elim ids [ [] ↦ load s | _ ∷ _ ↦ done false s ])
    go (id ∷ ids) e = returns (Undoes-refl s h)
    go [] e = query-Post db.get_token_ids _ s (Undoes-refl s h) λ ids _.
        push_entry-Post (token_ids_loaded ids) _ (with_ids ids) λ s2 c same. returns (
          Changes-Undoes (token_ids_loaded ids ∷ [])
            (record {
              journal_is = c.journal_is;
              logs_is = c.logs_is;
              depth_is = c.depth_is;
              spec_is = c.spec_is;
            })
            (revert_one (dragon s) (token_ids_loaded ids) (view_of s2) (view_of s)
              (rw (ap view same) (back ids)))
            (rw (ap view same) (fits ids)))
      where
        with_ids : List U256 → JournaledState
        with_ids ids = record s { state = record (s.state) { token_ids = ids } }

        back :
            (ids : List U256)
            → revert_view (dragon s) (token_ids_loaded ids) (view_of (with_ids ids))
              ≡ some (view_of s)
        back ids = unfold revert_view view in λ i. some (record (view_of s) { token_ids = sym e i })

        fits : (ids : List U256) → Fits (view_of (with_ids ids))
        fits ids =
            unfold view in
            record { balances = h.balances; nonces = h.nonces; transient = h.transient }

-- The amounts of a list of transfers are 256-bit words.
pub data AllWords : List TokenTransfer → Type 0 where
  no_words : AllWords []
  words :
      {t : TokenTransfer} {ts : List TokenTransfer}
      → t.amount < u256_mod
      → AllWords ts
      → AllWords (t ∷ ts)

abbrev pub TransferKept : JournaledState → Run (Option TransferError) → Type 0
TransferKept s = Post (λ r s'. r ≢ some overflow_payment → Undoes s s') (λ s'. Undoes s s')

TransferKept-after :
    {s t : JournaledState} {r : Run (Option TransferError)}
    → Undoes s t
    → TransferKept t r
    → TransferKept s r
TransferKept-after u (returns v) = returns (λ ne. Undoes-trans u (v ne))
TransferKept-after u (fails v) = fails (Undoes-trans u v)
TransferKept-after u panics = panics

transfer_loop-Kept :
    (from to : Address) (ts : List TokenTransfer) (s : JournaledState)
    → AllWords ts
    → Fits (view_of s)
    → TransferKept s (transfer_loop from to ts s)
unfolding transfer_loop
transfer_loop-Kept from to [] s no_words h = returns (λ _. Undoes-refl s h)
transfer_loop-Kept from to (t ∷ ts) s (words w ws) h =
    go (transfer_token-Undoes from to t s h w) (λ s1 h1. transfer_loop-Kept from to ts s1 ws h1)
  where
    next : Option TransferError → M (Option TransferError)
    next result = elim result [ some e ↦ pure (some e) | none ↦ transfer_loop from to ts ]

    go :
        {x : Run (Option TransferError)}
        → Post (λ r s'. r ≢ some overflow_payment → Undoes s s') (λ _. ⊥) x
        → ((s1 : JournaledState)
            → Fits (view_of s1)
            → TransferKept s1 (transfer_loop from to ts s1))
        → TransferKept s (then_run x next)
    go (returns {a = none} u) rec =
        let u1 = u (λ e. ground (arith, e)) in TransferKept-after u1 (rec _ u1.fits)
    go (returns {a = some e} u) rec = returns u
    go (fails x) rec = elim x [ ]
    go panics rec = panics

-- A transfer of a list of tokens, its loads included, that returns or ends in an error of the
-- database is undone by its entries, an insufficient balance included, unless it answers that the
-- receiver's balance overflows. The amounts are 256-bit words, the numbers of the state before
-- are in range and the database answers with machine integers.
pub transfer-Kept :
    (db : Database) (from to : Address) (ts : List TokenTransfer) (s : JournaledState)
    → InRange db
    → AllWords ts
    → Fits (view_of s)
    → TransferKept s (transfer db from to ts s)
unfolding transfer
transfer-Kept db from to ts s r ws h = Post-bind _ (load_native_token_ids-Kept db s h) λ _ s1 u1.
    Post-bind _ (Kept-after u1 (load_account-Kept db from s1 r u1.fits)) λ _ s2 u2.
      Post-bind _ (Kept-after u2 (load_account-Kept db to s2 r u2.fits))
        λ _ s3 u3. TransferKept-after u3 (transfer_loop-Kept from to ts s3 ws u3.fits)

-- The debit of `burn`.
burn_Undoes :
    (a : Address) (t amount : U256) (acc : Account) (s s2 : JournaledState)
    → Fits (view_of s)
    → s.state.accounts a ≡ some acc
    → amount ≤ get_balance t acc.info
    → let s1 =
        set_accounts
          (update s.state.accounts a (some (with_balance acc t (get_balance t acc.info - amount))))
          s in
      Changes s1 (tokens_burned a t amount ∷ []) s2 → world s2 ≡ world s1 → Undoes s s2
burn_Undoes a t amount acc s s2 h e enough c same =
    Changes-Undoes (tokens_burned a t amount ∷ [])
      (record {
        journal_is = c.journal_is;
        logs_is = c.logs_is;
        depth_is = c.depth_is;
        spec_is = c.spec_is;
      })
      (revert_one (dragon s) (tokens_burned a t amount) (view_of s2) (view_of s) (rw seen back))
      (rw seen (
        Fits-put_view a _ (view_of s) h
          (decrease_view-lt t amount (account_view a acc) (h.balances a (account_view a acc) found))
          (decrease_view-nonce t amount (account_view a acc)
            (h.nonces a (account_view a acc) found))))
  where
    burned : Account
    burned = with_balance acc t (get_balance t acc.info - amount)

    found : (view_of s).accounts a ≡ some (account_view a acc)
    found = accounts-view a acc (world s) e

    seen : view_of s2 ≡ put_view a (decrease_view t amount (account_view a acc)) (view_of s)
    seen =
        ap view same
        ∙ put_account-view a burned s
        ∙ ap (λ x. put_view a x (view_of s))
            (decreased-view a t amount acc (balance-lt a acc t s h e) enough)

    small : amount < u256_mod
    small = omega (arith, enough, balance-lt a acc t s h e)

    back :
        revert_view
          (dragon s)
          (tokens_burned a t amount)
          (put_view a (decrease_view t amount (account_view a acc)) (view_of s))
        ≡ some (view_of s)
    back =
        unfold revert_view in
        modify_view_back a (increase_view t amount) (account_view a acc)
          (decrease_view t amount (account_view a acc)) (view_of s) found
          (increase_view-decrease t amount (account_view a acc)
            (h.balances a (account_view a acc) found) small)

-- From every state whose numbers are in range, a `burn` that returns or ends in an error is
-- undone by its entries, whatever it answers. The database answers with machine integers.
pub burn-Undoable :
    (crypto : Crypto) (db : Database) (burner sub_id token_holder amount : ℕ)
    → InRange db
    → Undoable (burn crypto db burner sub_id token_holder amount)
unfolding burn
burn-Undoable crypto db burner sub_id token_holder amount r = Undoable-guard (amount == 0) (
    Undoable-bind (Undoable-is_err (record { kept = load_native_token_ids-Kept db })) λ failed_ids.
      Undoable-guard failed_ids (
        Undoable-bind
          (Undoable-is_err (record { kept = λ s fits. load_account-Kept db token_holder s r fits }))
          λ failed_load. Undoable-guard failed_load (
            Undoable-guard (is_invalid (db.is_token_id_valid token_id))
              (record { kept = debit_holder }))))
  where
    token_id : U256
    token_id = token_id_address crypto burner sub_id

    debit_holder :
        (t : JournaledState)
        → Fits (view_of t)
        → Kept t (
            (get_account token_holder >>= λ acc.
            elim (checked_sub (get_balance token_id acc.info) amount) [
              | none ↦ pure false
              | some new_balance ↦ do
                put_account token_holder (with_balance acc token_id new_balance)
                push_entry (tokens_burned token_holder token_id amount)
                pure true
            ])
              t)
    debit_holder t ht =
        unfold checked_sub in
        get_account-Post token_holder _ t λ acc e.
          elim (Bool-cases (leb amount (get_balance token_id acc.info))) [
            | inl enough ↦ rw enough (
                push_entry-Post (tokens_burned token_holder token_id amount) _ _ λ s2 c same.
                  returns (
                    burn_Undoes token_holder token_id amount acc t s2 ht e (leb→le _ _ enough) c
                      same))
            | inr short ↦ rw short (returns (Undoes-refl t ht))
          ]
