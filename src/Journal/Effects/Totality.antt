-- ===== src/Journal/Effects/Totality.antt =====
-- Proofs about how `transfer`, `burn` and `mint` end.
use sabvm.Prelude.{
  ℕ, ⊤, Bool, true, false, List, [], ◌∷◌, Option, none, some, ◌≡◌, ◌≢◌, refl, if◌then◌else◌, ◌==◌,
  checked_sub, arith,
}
use sabvm.State.{Address, U256, Account, get_balance}
use sabvm.Journal.{
  JournaledState, Run, done, db_error, panic, M, ◌>>=◌, ◌>>◌, pure, is_err, get_account,
  put_account, push_entry, Database, Crypto, TokenTransfer, TransferError, balance_transfer,
  load_account, load_native_token_ids, transfer, transfer_loop, transfer_token, credit_recipient,
  record_transfer, burn, with_balance, is_invalid, tokens_burned, token_id_address,
}
use sabvm.Journal.Effects.Panics.{
  has_part, is_loaded, Steps-refl, Ends, Any, returned, errored, Ends-total, Ends-bind,
  get_account-Ends, put_account-Ends, push_entry-Ends, load_account-Ends,
  load_native_token_ids-Ends, debit-Ends, credit-Ends,
}

module _ (from to : Address) where
  record_transfer-Ends :
      (t : TokenTransfer) (b : Bool) (s : JournaledState)
      → has_part s ≡ true
      → Ends Any s (record_transfer from to t b s)
  unfolding record_transfer
  record_transfer-Ends t true s h =
      Ends-bind (λ _. pure none) (push_entry-Ends (balance_transfer from to t.id t.amount) s h)
        λ _ u _ _. returned (Steps-refl u) tt
  record_transfer-Ends t false s h = returned (Steps-refl s) tt

  credit_recipient-Ends :
      (t : TokenTransfer) (b : Bool) (s : JournaledState)
      → has_part s ≡ true
      → is_loaded to s ≡ true
      → Ends Any s (credit_recipient from to t b s)
  unfolding credit_recipient
  credit_recipient-Ends t true s h l =
      Ends-bind (record_transfer from to t) (credit-Ends to t.id t.amount s h l)
        λ b u st _. record_transfer-Ends t b u (st.part_kept h)
  credit_recipient-Ends t false s h l = returned (Steps-refl s) tt

  transfer_token-Ends :
      (t : TokenTransfer) (s : JournaledState)
      → has_part s ≡ true
      → is_loaded from s ≡ true
      → is_loaded to s ≡ true
      → Ends Any s (transfer_token from to t s)
  unfolding transfer_token
  transfer_token-Ends t s h lf lt =
      Ends-bind (credit_recipient from to t) (debit-Ends from t.id t.amount s h lf)
        λ b u st _. credit_recipient-Ends t b u (st.part_kept h) (st.loaded_kept to lt)

  transfer_loop-Ends :
      (ts : List TokenTransfer) (s : JournaledState)
      → has_part s ≡ true
      → is_loaded from s ≡ true
      → is_loaded to s ≡ true
      → Ends Any s (transfer_loop from to ts s)
  unfolding transfer_loop
  transfer_loop-Ends [] s h lf lt = returned (Steps-refl s) tt
  transfer_loop-Ends (t ∷ ts) s h lf lt =
      Ends-bind next (transfer_token-Ends t s h lf lt) λ r u st _.
        go (λ s' h' f' t'. transfer_loop-Ends ts s' h' f' t') r u (st.part_kept h)
          (st.loaded_kept from lf) (st.loaded_kept to lt)
    where
      next : Option TransferError → M (Option TransferError)
      next r = elim r [ some e ↦ pure (some e) | none ↦ transfer_loop from to ts ]

      go :
          ((s : JournaledState)
            → has_part s ≡ true
            → is_loaded from s ≡ true
            → is_loaded to s ≡ true
            → Ends Any s (transfer_loop from to ts s))
          → (r : Option TransferError) (u : JournaledState) → has_part u ≡ true
          → is_loaded from u ≡ true
          → is_loaded to u ≡ true
          → Ends Any u (next r u)
      go rec none u h lf lt = rec u h lf lt
      go rec (some e) u h lf lt = returned (Steps-refl u) tt

  transfer-Ends :
      (db : Database) (ts : List TokenTransfer) (s : JournaledState)
      → has_part s ≡ true
      → Ends Any s (transfer db from to ts s)
  unfolding transfer
  transfer-Ends db ts s h = Ends-bind _ (load_native_token_ids-Ends db s h) λ _ s1 st1 _.
      Ends-bind _ (load_account-Ends db from s1 (st1.part_kept h)) λ _ s2 st2 lf.
        Ends-bind (λ _. transfer_loop from to ts)
          (load_account-Ends db to s2 (st2.part_kept (st1.part_kept h)))
          λ _ s3 st3 lt.
            transfer_loop-Ends ts s3 (st3.part_kept (st2.part_kept (st1.part_kept h)))
              (st3.loaded_kept from lf) lt

  -- On a journal that has a part, `transfer` never panics.
  pub transfer-total :
      (db : Database) (ts : List TokenTransfer) (s : JournaledState)
      → has_part s ≡ true
      → transfer db from to ts s ≢ panic
  transfer-total db ts s h = Ends-total (transfer-Ends db ts s h)

-- What `is_err` makes of a run that ends: a Boolean, and `false` only after a value.
pub is_err-Ends :
    {A : Type 0} {Q : A → JournaledState → Type 0} {s : JournaledState} {r : Run A}
    {P : JournaledState → Type 0}
    → Ends Q s r
    → ((a : A) (t : JournaledState) → Q a t → P t)
    → Ends
        (λ b t. b ≡ false → P t)
        s
        (elim r [ done _ s' ↦ done false s' | db_error s' ↦ done true s' | panic ↦ panic ])
is_err-Ends (returned st q) k = returned st (λ _. k _ _ q)
is_err-Ends (errored st) k = returned st (λ e. ground (arith, e))

abbrev pub Answers : JournaledState → Run Bool → Type 0
Answers s = Ends Any s

pub guard-Ends :
    (b : Bool) (m : M Bool) (s : JournaledState)
    → (b ≡ false → Answers s (m s))
    → Answers s ((if b then pure false else m) s)
guard-Ends true m s k = returned (Steps-refl s) tt
guard-Ends false m s k = k refl

module _ (crypto : Crypto) (db : Database) (burner sub_id holder amount : ℕ) where
  token : U256
  token = token_id_address crypto burner sub_id

  debit_holder : M Bool
  unfolding token
  debit_holder = do
    account ← get_account holder
    elim (checked_sub (get_balance token account.info) amount) [
      | none ↦ pure false
      | some new_balance ↦ do
        put_account holder (with_balance account token new_balance)
        push_entry (tokens_burned holder token amount)
        pure true
    ]

  debit_holder-Ends :
      (s : JournaledState)
      → has_part s ≡ true
      → is_loaded holder s ≡ true
      → Answers s (debit_holder s)
  unfolding debit_holder
  debit_holder-Ends s h l =
      Ends-bind write (get_account-Ends holder s l)
        λ acc t st _. go acc (checked_sub (get_balance token acc.info) amount) t (st.part_kept h)
    where
      write_to : Account → Option U256 → M Bool
      write_to acc o = elim o [
        | none ↦ pure false
        | some new_balance ↦ do
          put_account holder (with_balance acc token new_balance)
          push_entry (tokens_burned holder token amount)
          pure true
      ]

      write : Account → M Bool
      write acc = write_to acc (checked_sub (get_balance token acc.info) amount)

      go :
          (acc : Account) (o : Option U256) (t : JournaledState)
          → has_part t ≡ true
          → Answers t (write_to acc o t)
      go acc none t h = returned (Steps-refl t) tt
      go acc (some b) t h =
          Ends-bind (λ _. push_entry (tokens_burned holder token amount) >> pure true)
            (put_account-Ends holder (with_balance acc token b) t)
            λ _ u st _.
              Ends-bind (λ _. pure true)
                (push_entry-Ends (tokens_burned holder token amount) u (st.part_kept h))
                λ _ v _ _. returned (Steps-refl v) tt

  burn-Ends :
      (s : JournaledState)
      → has_part s ≡ true
      → Answers s (burn crypto db burner sub_id holder amount s)
  unfolding burn debit_holder token
  burn-Ends s h = guard-Ends (amount == 0) load_ids s λ _.
      Ends-bind (λ failed. if failed then pure false else load_holder)
        (is_err-Ends {P = λ t. ⊤} (load_native_token_ids-Ends db s h) (λ _ _ _. tt))
        λ failed_ids s1 st1 _. guard-Ends failed_ids load_holder s1 λ _.
          Ends-bind (λ failed. if failed then pure false else check_id)
            (is_err-Ends {P = λ t. is_loaded holder t ≡ true}
              (load_account-Ends db holder s1 (st1.part_kept h)) (λ _ _ l. l))
            λ failed_load s2 st2 loaded. guard-Ends failed_load check_id s2 λ ok.
              guard-Ends (is_invalid (db.is_token_id_valid token)) debit_holder s2
                λ _. debit_holder-Ends s2 (st2.part_kept (st1.part_kept h)) (loaded ok)
    where
      check_id : M Bool
      check_id = if is_invalid (db.is_token_id_valid token) then pure false else debit_holder

      load_holder : M Bool
      load_holder = do
        failed ← is_err (load_account db holder)
        if failed then pure false else check_id

      load_ids : M Bool
      load_ids = do
        failed ← is_err (load_native_token_ids db)
        if failed then pure false else load_holder

  -- On a journal that has a part, `burn` never panics.
  pub burn-total :
      (s : JournaledState)
      → has_part s ≡ true
      → burn crypto db burner sub_id holder amount s ≢ panic
  burn-total s h = Ends-total (burn-Ends s h)
