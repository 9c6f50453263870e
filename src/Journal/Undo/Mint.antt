-- ===== src/Journal/Undo/Mint.antt =====
-- The proofs about undoing `mint` where the id is known before it.
use sabvm.Prelude.{
  Bool, true, false, List, [], ◌∷◌, none, some, ◌≡◌, refl, ap, sym, ◌∙◌, ◌+◌, ◌<◌, Bool-cases, inl,
  inr, if◌then◌else◌, Option-cases, contains, checked_add, ltb, ltb→lt, u256_mod, arith, subst,
}
use sabvm.State.{Address, U256, Account, update, get_balance}
use sabvm.Journal.{
  ◌>>◌, ◌>>=◌, tokens_minted, JournaledState, Run, done, db_error, panic, M, pure, world, Database,
  Crypto, is_err, token_id_address, mint, load_account, load_native_token_ids, get_account,
  put_account, push_entry, add_token_id, with_balance, set_accounts,
}
use sabvm.Journal.View.{account_view, view, put_view, accounts-view}
use sabvm.Journal.Restore.{revert_view, increase_view, decrease_view}
use sabvm.Journal.Algebra.{modify_view_back, decrease_view-increase}
use sabvm.Journal.Undo.{
  Undoes, Undoes-refl, Fits, Fits-put_view, dragon, view_of, Post, returns, fails, panics,
  revert_one,
}
use sabvm.Journal.Undo.Touch.{
  Changes, Changes-Undoes, put_account-view, get_account-Post, push_entry-Post, Post-bind,
}
use sabvm.Journal.Undo.Transfer.{increased-view, increase_view-lt, increase_view-nonce}
use sabvm.Journal.Undo.Accounts.{Kept, InRange, query-Post}
use sabvm.Journal.Undo.Work.{Kept-after}
use sabvm.Journal.Undo.Native.{load_account-Kept}

-- Loading an account leaves the ids of the tokens.
load_account-ids :
    (db : Database) (a : Address) (s : JournaledState)
    → Post
        (λ _ s'. s'.state.token_ids ≡ s.state.token_ids)
        (λ s'. s'.state.token_ids ≡ s.state.token_ids)
        (load_account db a s)
unfolding load_account
load_account-ids db a s = elim (Option-cases (s.state.accounts a)) [
  | inr (acc, e) ↦ rw (e, load_account) (returns refl)
  | inl e ↦
      rw (e, load_account)
        (query-Post (db.basic a) _ s refl
          λ basic _. push_entry-Post _ _ s λ s1 c same. returns (ap (λ w. w.state.token_ids) same))
]

-- Two facts of one run.
Post-both :
    {A : Type 0} {Q R : A → JournaledState → Type 0} {E F : JournaledState → Type 0} {r : Run A}
    → Post Q E r
    → Post R F r
    → Post (λ a s. Q a s × R a s) (λ s. E s × F s) r
Post-both (returns q) (returns p) = returns (q, p)
Post-both (fails q) (fails p) = fails (q, p)
Post-both panics panics = panics

is_err-Post :
    {A : Type 0} {Q E : JournaledState → Type 0} (m : M A) (s : JournaledState)
    → Post (λ _ s'. Q s') (λ s'. Q s') (m s)
    → Post (λ _ s'. Q s') E (is_err m s)
is_err-Post {A} {Q} {E} m s h = go h
  where
    go :
        {r : Run A}
        → Post (λ _ s'. Q s') (λ s'. Q s') r
        → Post
            (λ _ s'. Q s')
            E
            (elim r [ done _ s' ↦ done false s' | db_error s' ↦ done true s' | panic ↦ panic ])
    go (returns q) = returns q
    go (fails q) = returns q
    go panics = panics

-- The credit of `mint`.
mint_Undoes :
    (minter a : Address) (t amount : U256) (acc : Account) (s s2 : JournaledState)
    → Fits (view_of s)
    → s.state.accounts a ≡ some acc
    → get_balance t acc.info + amount < u256_mod
    → let s1 =
        set_accounts
          (update s.state.accounts a (some (with_balance acc t (get_balance t acc.info + amount))))
          s in
      Changes s1 (tokens_minted minter a t amount ∷ []) s2 → world s2 ≡ world s1 → Undoes s s2
mint_Undoes minter a t amount acc s s2 h e enough c same =
    Changes-Undoes (tokens_minted minter a t amount ∷ [])
      (record {
        journal_is = c.journal_is;
        logs_is = c.logs_is;
        depth_is = c.depth_is;
        spec_is = c.spec_is;
      })
      (revert_one (dragon s) (tokens_minted minter a t amount) (view_of s2) (view_of s)
        (rw seen back))
      (rw seen (
        Fits-put_view a _ (view_of s) h
          (increase_view-lt t amount (account_view a acc) (h.balances a (account_view a acc) found))
          (increase_view-nonce t amount (account_view a acc)
            (h.nonces a (account_view a acc) found))))
  where
    found : (view_of s).accounts a ≡ some (account_view a acc)
    found = accounts-view a acc (world s) e

    seen : view_of s2 ≡ put_view a (increase_view t amount (account_view a acc)) (view_of s)
    seen =
        ap view same
        ∙ put_account-view a (with_balance acc t (get_balance t acc.info + amount)) s
        ∙ ap (λ x. put_view a x (view_of s)) (increased-view a t amount acc enough)

    small : amount < u256_mod
    small = omega (arith, enough)

    back :
        revert_view
          (dragon s)
          (tokens_minted minter a t amount)
          (put_view a (increase_view t amount (account_view a acc)) (view_of s))
        ≡ some (view_of s)
    back =
        unfold revert_view in
        modify_view_back a (decrease_view t amount) (account_view a acc)
          (increase_view t amount (account_view a acc)) (view_of s) found
          (decrease_view-increase t amount (account_view a acc)
            (h.balances a (account_view a acc) found) small)

loaded_already :
    (ids : List U256) (t : U256) (s : JournaledState) (load : Run Bool)
    → contains ids t ≡ true
    → elim ids as (λ _. Run Bool) [ [] ↦ load | _ ∷ _ ↦ done false s ] ≡ done false s
loaded_already [] t s load known = absurd (ground (arith, known))
loaded_already (id ∷ ids) t s load known = refl

loaded_ids :
    (db : Database) (s : JournaledState) (t : U256)
    → contains s.state.token_ids t ≡ true
    → load_native_token_ids db s ≡ done false s
unfolding load_native_token_ids
loaded_ids db s t known = loaded_already s.state.token_ids t s _ known

-- From a state whose numbers are in range and in which the id is known, a `mint` that returns is
-- undone by its entries, whatever it answers. The database answers with machine integers.
pub mint-Kept :
    (crypto : Crypto) (db : Database) (minter recipient : Address) (sub_id amount : U256)
    (s : JournaledState)
    → InRange db
    → Fits (view_of s)
    → contains s.state.token_ids (token_id_address crypto minter sub_id) ≡ true
    → Kept s (mint crypto db minter recipient sub_id amount s)
unfolding mint
mint-Kept crypto db minter recipient sub_id amount s r h known =
    Post-bind _ (is_err-Post (load_native_token_ids db) s loaded) after_ids
  where
    token_id : U256
    token_id = token_id_address crypto minter sub_id

    credit_recipient : M Bool
    credit_recipient = do
      account ← get_account recipient
      elim (checked_add u256_mod (get_balance token_id account.info) amount) [
        | none ↦ pure false
        | some new_balance ↦ do
          put_account recipient (with_balance account token_id new_balance)
          add_token_id token_id
          push_entry (tokens_minted minter recipient token_id amount)
          pure true
      ]

    credited :
        (t : JournaledState)
        → Fits (view_of t)
        → contains t.state.token_ids token_id ≡ true
        → Kept t (credit_recipient t)
    credited t ht known =
        unfold checked_add in
        get_account-Post recipient _ t λ acc e.
          elim (Bool-cases (ltb (get_balance token_id acc.info + amount) u256_mod)) [
            | inl enough ↦
                rw (enough, known)
                  (push_entry-Post (tokens_minted minter recipient token_id amount) _ _ λ s2 c same.
                    returns (
                      mint_Undoes minter recipient token_id amount acc t s2 ht e (ltb→lt _ _ enough)
                        c same))
            | inr too_much ↦ rw too_much (returns (Undoes-refl t ht))
          ]

    loaded :
        Post
          (λ _ t. Undoes s t × (t.state.token_ids ≡ s.state.token_ids))
          (λ t. Undoes s t × (t.state.token_ids ≡ s.state.token_ids))
          (load_native_token_ids db s)
    loaded =
        subst
          (Post (λ _ t. Undoes s t × (t.state.token_ids ≡ s.state.token_ids))
            (λ t. Undoes s t × (t.state.token_ids ≡ s.state.token_ids)))
          (sym (loaded_ids db s token_id known)) (returns (Undoes-refl s h, refl))

    load_minter : M Bool
    load_minter = do
      failed_load ← is_err (load_account db minter)
      if failed_load then pure false else credit_recipient

    after_load :
        (failed : Bool) (t t' : JournaledState)
        → contains t.state.token_ids token_id ≡ true
        → Undoes t t' × (t'.state.token_ids ≡ t.state.token_ids)
        → Kept t ((if failed then pure false else credit_recipient) t')
    after_load true t t' known (u, same) = returns u
    after_load false t t' known (u, same) =
        Kept-after u (credited t' u.fits (ap (λ ids. contains ids token_id) same ∙ known))

    after_ids :
        (failed : Bool) (t : JournaledState)
        → Undoes s t × (t.state.token_ids ≡ s.state.token_ids)
        → Kept s ((if failed then pure false else load_minter) t)
    after_ids true t (u, same) = returns u
    after_ids false t (u, same) = Kept-after u (
        Post-bind _
          (is_err-Post (load_account db minter) t
            (Post-both (load_account-Kept db minter t r u.fits) (load_account-ids db minter t)))
          λ failed t' both.
            after_load failed t t' (ap (λ ids. contains ids token_id) same ∙ known) both)
