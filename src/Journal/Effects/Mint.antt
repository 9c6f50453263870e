-- ===== src/Journal/Effects/Mint.antt =====
-- Proofs about `mint`, which unwraps the recipient's account and does not load it.
use sabvm.Prelude.{
  ℕ, ⊤, Bool, true, false, List, [], ◌∷◌, ◌++◌, Option, none, some, ◌≡◌, ◌≢◌, ap, ◌∙◌,
  if◌then◌else◌, contains, checked_add, u256_mod,
}
use sabvm.State.{U256, Account, get_balance}
use sabvm.Journal.{
  JournaledState, Run, done, db_error, panic, M, ◌>>=◌, ◌>>◌, then_run, pure, is_err, get_account,
  put_account, push_entry, Database, Crypto, load_account, load_native_token_ids, mint,
  with_balance, tokens_minted, token_ids_loaded, query, token_id_address, add_token_id,
  set_token_ids,
}
use sabvm.Journal.Effects.Panics.{
  has_part, is_loaded, Steps-refl, Ends, Any, returned, Ends-total, Ends-bind, get_account-Ends,
  put_account-Ends, push_entry-Ends, load_account-Ends, load_native_token_ids-Ends,
}
use sabvm.Journal.Effects.Totality.{Answers, guard-Ends, is_err-Ends}

module _ (crypto : Crypto) (db : Database) (minter recipient sub_id amount : ℕ) where
  token : U256
  token = token_id_address crypto minter sub_id

  write_to : Account → Option U256 → M Bool
  unfolding token
  write_to acc o = elim o [
    | none ↦ pure false
    | some new_balance ↦ do
      put_account recipient (with_balance acc token new_balance)
      add_token_id token
      push_entry (tokens_minted minter recipient token amount)
      pure true
  ]

  add_token_id-Ends : (s : JournaledState) → Ends Any s (add_token_id token s)
  add_token_id-Ends s = go (contains s.state.token_ids token)
    where
      go :
          (b : Bool)
          → Ends Any s
              ((if b then pure tt else set_token_ids (s.state.token_ids ++ (token ∷ []))) s)
      go true = returned (Steps-refl s) tt
      go false = returned (record { part_kept = λ h. h; loaded_kept = λ a h. h }) tt

  write_to-Ends :
      (acc : Account) (o : Option U256) (t : JournaledState)
      → has_part t ≡ true
      → Answers t (write_to acc o t)
  unfolding write_to
  write_to-Ends acc none t h = returned (Steps-refl t) tt
  write_to-Ends acc (some b) t h =
      Ends-bind
        (λ _.
          add_token_id token
          >> (push_entry (tokens_minted minter recipient token amount) >> pure true))
        (put_account-Ends recipient (with_balance acc token b) t)
        λ _ u st _.
          Ends-bind (λ _. push_entry (tokens_minted minter recipient token amount) >> pure true)
            (add_token_id-Ends u)
            λ _ v st' _.
              Ends-bind (λ _. pure true)
                (push_entry-Ends (tokens_minted minter recipient token amount) v
                  (st'.part_kept (st.part_kept h)))
                λ _ w _ _. returned (Steps-refl w) tt

  write : Account → M Bool
  unfolding token
  write acc = write_to acc (checked_add u256_mod (get_balance token acc.info) amount)

  credit_it : M Bool
  credit_it = get_account recipient >>= write

  load_minter : M Bool
  load_minter = do
    failed ← is_err (load_account db minter)
    if failed then pure false else credit_it

  credit_it-Ends :
      (s : JournaledState)
      → has_part s ≡ true
      → is_loaded recipient s ≡ true
      → Answers s (credit_it s)
  unfolding credit_it write
  credit_it-Ends s h l = Ends-bind write (get_account-Ends recipient s l) λ acc t st _.
      write_to-Ends acc (checked_add u256_mod (get_balance token acc.info) amount) t
        (st.part_kept h)

  mint-Ends :
      (s : JournaledState)
      → has_part s ≡ true
      → is_loaded recipient s ≡ true
      → Answers s (mint crypto db minter recipient sub_id amount s)
  unfolding mint write write_to credit_it load_minter token
  mint-Ends s h l =
      Ends-bind (λ failed. if failed then pure false else load_minter)
        (is_err-Ends {P = λ t. ⊤} (load_native_token_ids-Ends db s h) (λ _ _ _. tt))
        λ failed_ids s1 st1 _. guard-Ends failed_ids load_minter s1 λ _.
          Ends-bind (λ failed. if failed then pure false else credit_it)
            (is_err-Ends {P = λ t. ⊤} (load_account-Ends db minter s1 (st1.part_kept h))
              (λ _ _ _. tt))
            λ failed_load s2 st2 _. guard-Ends failed_load credit_it s2 λ _.
              credit_it-Ends s2 (st2.part_kept (st1.part_kept h))
                (st2.loaded_kept recipient (st1.loaded_kept recipient l))

  -- On a journal that has a part, `mint` to a loaded recipient never panics.
  pub mint-total :
      (s : JournaledState)
      → has_part s ≡ true
      → is_loaded recipient s ≡ true
      → mint crypto db minter recipient sub_id amount s ≢ panic
  mint-total s h l = Ends-total (mint-Ends s h l)

  -- With the minter loaded and the token ids known, `mint` to a recipient that is not loaded
  -- panics.
  pub mint-unloaded :
      (s : JournaledState) (id : U256) (ids : List U256) (acc : Account)
      → s.state.token_ids ≡ id ∷ ids
      → s.state.accounts minter ≡ some acc
      → s.state.accounts recipient ≡ none
      → mint crypto db minter recipient sub_id amount s ≡ panic
  unfolding mint write write_to credit_it load_minter token
  mint-unloaded s id ids acc known m r =
      ap (λ x. then_run x (λ failed. if failed then pure false else load_minter)) ids_known
      ∙ ap (λ x. then_run x (λ failed. if failed then pure false else credit_it)) minter_loaded
      ∙ ap (λ x. then_run x write) missing
    where
      asked : M Bool
      asked = do
        found ← query db.get_token_ids
        set_token_ids found
        push_entry (token_ids_loaded found)
        pure true

      answered : Run Bool → Run Bool
      answered r' = elim r' [
        | done _ s' ↦ done false s'
        | db_error s' ↦ done true s'
        | panic ↦ panic
      ]

      ids_known : is_err (load_native_token_ids db) s ≡ done false s
      ids_known =
          unfold load_native_token_ids in
          ap (λ l. answered (elim l [ [] ↦ asked s | _ ∷ _ ↦ done false s ])) known

      minter_loaded : is_err (load_account db minter) s ≡ done false s
      minter_loaded = unfold load_account in rw (m, is_err)

      missing : get_account recipient s ≡ panic
      missing = rw (r, get_account)
