-- ===== src/Journal/Effects/Create.antt =====
-- Proofs about the collision check of `create_account_checkpoint`.
use sabvm.Prelude.{
  ℕ, ⊤, Bool, true, false, not, ◌||◌, [], ◌∷◌, Option, none, some, ◌≡◌, ◌≢◌, refl, ◌<◌, ◌+◌, ◌%◌,
  ◌==◌, arith, Bool-cases, inl, inr, u64_mod, u256_mod, checked_add,
}
use sabvm.State.{U256, SpecId, Account, keccak_empty, get_base_balance, base_token_id}
use sabvm.Journal.{
  ◌>>=◌, JournaledState, JournalCheckpoint, Run, done, db_error, panic, M, ◌>>◌, then_run, pure,
  CreateResult, created_at, create_collision, overflow_payment, account_created, balance_transfer,
  create_account_checkpoint, checkpoint, checkpoint_revert, start_account, fund_account, on_info,
  push_entry, put_account, get_account, touch_account, set_accounts,
}
use sabvm.State.{decrease_base_balance, update}
use sabvm.Journal.Undo.{Undoes-refl, Fits, view_of, Post, returns, fails, panics}
use sabvm.Journal.Undo.Touch.{Post-weaken}
use sabvm.Journal.Undo.Checkpoint.{Restored, opened, mark_of, checkpoint_revert-Restored}

-- The address is taken: it has code or a nonce, or it is a precompile's or another preloaded one.
abbrev pub is_taken : Account → Bool → Bool
is_taken acc is_preloaded =
    not (acc.info.code_hash == keccak_empty) || not (acc.info.nonce == 0) || is_preloaded

-- What holds of every end holds after any start.
skip-Post :
    {A B : Type 0} {R : B → JournaledState → Type 0} (r : Run A) (f : A → M B)
    → ((a : A) (s : JournaledState) → Post R (λ _. ⊤) (f a s))
    → Post R (λ _. ⊤) (then_run r f)
skip-Post (done a s) f h = h a s
skip-Post (db_error s) f h = fails tt
skip-Post panic f h = panics

overflow_ne : overflow_payment ≢ create_collision
overflow_ne e = ground (arith, e)

created_ne : (mark : JournalCheckpoint) → created_at mark ≢ create_collision
created_ne mark e = ground (arith, e)

-- For a loaded address, if `create_account_checkpoint` returns, it reports a collision exactly if
-- the address is taken, and then nothing has changed: the view, the journal, the logs, the depth
-- and the spec are those before. The numbers of the state are in range.
pub create_account_checkpoint-collision :
    (caller address balance : ℕ) (spec_id : SpecId) (s : JournaledState) (acc : Account)
    → s.state.accounts address ≡ some acc
    → Fits (view_of s)
    → s.depth < u64_mod
    → Post
        (λ r s'.
          (is_taken acc (s.warm_preloaded_addresses address) ≡ true
            → (r ≡ create_collision) × Restored s s')
          × (is_taken acc (s.warm_preloaded_addresses address) ≡ false → r ≢ create_collision))
        (λ _. ⊤)
        (create_account_checkpoint caller address balance spec_id s)
unfolding create_account_checkpoint checkpoint
create_account_checkpoint-collision caller address balance spec_id s acc e h d =
    rw (e, get_account)
      (elim (Bool-cases (is_taken acc (s.warm_preloaded_addresses address))) [
        | inl taken ↦ rw taken (
            let (r, (e', back)) =
              checkpoint_revert-Restored s (opened s) (Undoes-refl (opened s) h) d in
            rw e' (returns ((λ _. (refl, back)), (λ x. ground (arith, x)))))
        | inr free ↦ rw free (
            Post-weaken (λ r _ other. ((λ x. ground (arith, x)), λ _. other)) (λ _ _. tt)
              (proceed started))
      ])
  where
    choose : Account → Option U256 → M CreateResult
    choose acc' o = elim o [
      | none ↦ checkpoint_revert (mark_of s) >> pure overflow_payment
      | some new_base_balance ↦ do
        put_account address (fund_account spec_id new_base_balance acc')
        caller_account ← get_account caller
        put_account caller (on_info (decrease_base_balance balance) caller_account)
        push_entry (balance_transfer caller address base_token_id balance)
        pure (created_at (mark_of s))
    ]

    funded : U256 → Account → JournaledState → JournaledState
    funded b acc' s1 =
        set_accounts (update s1.state.accounts address (some (fund_account spec_id b acc'))) s1

    paid : Account → JournaledState → JournaledState
    paid caller_account s2 =
        set_accounts
          (update s2.state.accounts caller
            (some (on_info (decrease_base_balance balance) caller_account)))
          s2

    pay : Account → M CreateResult
    pay caller_account = do
      put_account caller (on_info (decrease_base_balance balance) caller_account)
      push_entry (balance_transfer caller address base_token_id balance)
      pure (created_at (mark_of s))

    started : JournaledState
    started = record (set_accounts (update s.state.accounts address (some (start_account acc))) s) {
      depth = (s.depth + 1) % u64_mod;
      journal = (account_created address ∷ []) ∷ s.journal;
    }

    Other : Run CreateResult → Type 0
    Other = Post (λ r _. r ≢ create_collision) (λ _. ⊤)

    chosen : (acc' : Account) (o : Option U256) (s1 : JournaledState) → Other (choose acc' o s1)
    chosen acc' none s1 =
        skip-Post (checkpoint_revert (mark_of s) s1) (λ _. pure overflow_payment)
          λ _ _. returns overflow_ne
    chosen acc' (some b) s1 =
        skip-Post (get_account caller (funded b acc' s1)) pay λ caller_account s2.
          skip-Post
            (push_entry (balance_transfer caller address base_token_id balance)
              (paid caller_account s2))
            (λ _. pure (created_at (mark_of s))) λ _ _. returns (created_ne (mark_of s))

    proceed :
        (s1 : JournaledState)
        → Other (
            then_run
              (touch_account address (start_account acc) s1)
              (λ acc'. choose acc' (checked_add u256_mod (get_base_balance acc'.info) balance)))
    proceed s1 =
        skip-Post (touch_account address (start_account acc) s1)
          (λ acc'. choose acc' (checked_add u256_mod (get_base_balance acc'.info) balance))
          λ acc' s2. chosen acc' (checked_add u256_mod (get_base_balance acc'.info) balance) s2
