-- ===== src/Journal/Undo/Actions.antt =====
-- The proofs about undoing single actions on the journaled state, and actions one after another.
use sabvm.Prelude.{
  ◌<◌, ⊤, Bool, true, false, Option, none, some, ◌≡◌, refl, if◌then◌else◌, arith, u64_mod, ◌==◌,
  contains, Bool-cases, inl, inr, ap, sym, ◌∙◌, some_inj,
}
use sabvm.State.{Address, U256, Account, Bytecode, keccak_empty}
use sabvm.Journal.{
  JournaledState, Run, done, db_error, panic, M, ◌>>=◌, then_run, pure, Database, Crypto,
  TransferError, out_of_funds, overflow_payment, mint, token_id_address,
}
use sabvm.Journal.Undo.{
  Undoes, Undoes-trans, Undoes-refl, Fits, view_of, Post, returns, fails, panics,
}
use sabvm.Journal.Undo.Accounts.{Kept, InRange, touch-Kept, inc_nonce-Kept}
use sabvm.Journal.Undo.Work.{Undoable}
use sabvm.Journal.Undo.Storage.{sload-Kept, sstore-Kept, log-Kept}
use sabvm.Journal.Undo.Transient.{tstore-Kept}
use sabvm.Journal.Undo.Native.{
  TransferKept, load_account-Kept, load_native_token_ids-Kept, transfer-Kept, burn-Undoable,
}
use sabvm.Journal.Undo.Code.{set_code-Kept}
use sabvm.Journal.Undo.Fill.{load_code-Kept}
use sabvm.Journal.Undo.Mint.{mint-Kept}
use sabvm.Journal.Undo.Script.{
  Action, loads_ids, loads, touches, counts, reads, writes, writes_transient, logs, burns, mints,
  sets_code, loads_code, mint_known, set_first_code, pays, ends_well, ignoring, perform,
}

-- Work that, when it ends well, is undone by the journal.
pub record Reversible (m : M Bool) : Type 0 where
  pub undone :
      (s : JournaledState)
      → Fits (view_of s)
      → s.depth < u64_mod
      → Post (λ ok s'. ok ≡ true → Undoes s s') (λ _. ⊤) (m s)

pub Reversible-pure : (b : Bool) → Reversible (pure b)
Reversible-pure b = record { undone = λ s h d. returns (λ _. Undoes-refl s h) }

pub after_Undoes :
    {s t : JournaledState} {r : Run Bool}
    → Undoes s t
    → Post (λ ok s'. ok ≡ true → Undoes t s') (λ _. ⊤) r
    → Post (λ ok s'. ok ≡ true → Undoes s s') (λ _. ⊤) r
after_Undoes u (returns v) = returns (λ e. Undoes-trans u (v e))
after_Undoes u (fails v) = fails tt
after_Undoes u panics = panics

-- Work that goes on while it ends well.
pub Reversible-seq :
    {m k : M Bool}
    → Reversible m
    → Reversible k
    → Reversible (m >>= λ ok. if ok then k else pure false)
Reversible-seq {m} {k} hm hk = record { undone = λ s h d. go s d (hm.undone s h d) }
  where
    go :
        (s : JournaledState) {r : Run Bool}
        → s.depth < u64_mod
        → Post (λ ok s'. ok ≡ true → Undoes s s') (λ _. ⊤) r
        → Post
            (λ ok s'. ok ≡ true → Undoes s s')
            (λ _. ⊤)
            (then_run r (λ ok. if ok then k else pure false))
    go s d (returns {a = true} v) =
        let u = v refl in after_Undoes u (hk.undone _ u.fits (omega (arith, u.depth_is, d)))
    go s d (returns {a = false} v) = returns (λ e. ground (arith, e))
    go s d (fails v) = fails tt
    go s d panics = panics

Undoable-Reversible : {A : Type 0} {m : M A} → Undoable m → Reversible (ignoring m)
Undoable-Reversible {m} h = record { undone = λ s fits d. go (h.kept s fits) }
  where
    go :
        {A : Type 0} {s : JournaledState} {r : Run A}
        → Kept s r
        → Post (λ ok s'. ok ≡ true → Undoes s s') (λ _. ⊤) (then_run r (λ _. pure true))
    go (returns u) = returns (λ _. u)
    go (fails u) = fails tt
    go panics = panics

ends_well-Reversible :
    {m : M (Option TransferError)}
    → ((s : JournaledState) → Fits (view_of s) → TransferKept s (m s))
    → Reversible (m >>= λ r. pure (ends_well r))
ends_well-Reversible {m} h = record { undone = λ s fits d. go (h s fits) }
  where
    go :
        {s : JournaledState} {r : Run (Option TransferError)}
        → TransferKept s r
        → Post (λ ok s'. ok ≡ true → Undoes s s') (λ _. ⊤) (then_run r (λ e. pure (ends_well e)))
    go (returns {a = none} u) = returns (λ _. u (λ e. ground (arith, e)))
    go (returns {a = some out_of_funds} u) = returns (λ _. u (λ e. ground (arith, e)))
    go (returns {a = some overflow_payment} u) = returns (λ e. ground (arith, e))
    go (fails u) = fails tt
    go panics = panics

-- The test of `set_first_code`, for the account that is there.
first :
    {a : Address} (s : JournaledState) (acc : Account)
    → s.state.accounts a ≡ some acc
    → elim (s.state.accounts a) as (λ _. Bool) [
      | none ↦ false
      | some x ↦ x.info.code_hash == keccak_empty
    ]
      ≡ true
    → (acc.info.code_hash == keccak_empty) ≡ true
first {a} s acc e t = go (s.state.accounts a) e t
  where
    go :
        (o : Option Account)
        → o ≡ some acc
        → elim o as (λ _. Bool) [ none ↦ false | some x ↦ x.info.code_hash == keccak_empty ] ≡ true
        → (acc.info.code_hash == keccak_empty) ≡ true
    go none e t = absurd cc
    go (some x) e t = ap (λ y. y.info.code_hash == keccak_empty) (sym (some_inj e)) ∙ t

mint_known-Reversible :
    (crypto : Crypto) (db : Database) (minter recipient : Address) (sub_id amount : U256)
    → InRange db
    → Reversible (mint_known crypto db minter recipient sub_id amount)
mint_known-Reversible crypto db minter recipient sub_id amount r = record {
  undone = λ s fits d.
      elim (Bool-cases (contains s.state.token_ids (token_id_address crypto minter sub_id))) [
        | inl known ↦ go _ known (mint-Kept crypto db minter recipient sub_id amount s r fits known)
        | inr unknown ↦ given_up _ unknown (mint crypto db minter recipient sub_id amount s)
      ];
}
  where
    go :
        {A : Type 0} {s : JournaledState} {r : Run A} (b : Bool)
        → b ≡ true
        → Kept s r
        → Post (λ ok s'. ok ≡ true → Undoes s s') (λ _. ⊤) (then_run r (λ _. pure b))
    go b e (returns u) = returns (λ _. u)
    go b e (fails u) = fails tt
    go b e panics = panics

    given_up :
        {A : Type 0} {s : JournaledState} (b : Bool)
        → b ≡ false
        → (r : Run A) → Post (λ ok s'. ok ≡ true → Undoes s s') (λ _. ⊤) (then_run r (λ _. pure b))
    given_up b e (done a s') = returns (λ t. absurd (ground (arith, e, t)))
    given_up b e (db_error s') = fails tt
    given_up b e panic = panics

set_first_code-Reversible :
    (crypto : Crypto) (a : Address) (code : Bytecode) → Reversible (set_first_code crypto a code)
set_first_code-Reversible crypto a code = record {
  undone = λ s fits d. go s (set_code-Kept crypto a code s fits);
}
  where
    go :
        {A : Type 0} (s : JournaledState) {r : Run A}
        → Post
            (λ _ s'.
              (acc : Account) × (s.state.accounts a ≡ some acc)
              × ((acc.info.code_hash == keccak_empty) ≡ true → Undoes s s'))
            (λ _. ⊥)
            r
        → Post
            (λ ok s'. ok ≡ true → Undoes s s')
            (λ _. ⊤)
            (then_run r (λ _. pure (elim (s.state.accounts a) [
              | none ↦ false
              | some acc ↦ acc.info.code_hash == keccak_empty
            ])))
    go s (returns (acc, e, u)) = returns (λ t. u (first s acc e t))
    go s (fails x) = elim x [ ]
    go s panics = panics

pub perform-Reversible :
    (crypto : Crypto) (db : Database) (a : Action) → InRange db → Reversible (perform crypto db a)
unfolding perform
perform-Reversible crypto db (loads a) r =
    Undoable-Reversible (record { kept = λ s h. load_account-Kept db a s r h })
perform-Reversible crypto db (loads_code a) r =
    Undoable-Reversible (record { kept = λ s h. load_code-Kept db a s r h })
perform-Reversible crypto db loads_ids r =
    Undoable-Reversible (record { kept = load_native_token_ids-Kept db })
perform-Reversible crypto db (touches a) r = Undoable-Reversible (record { kept = touch-Kept a })
perform-Reversible crypto db (counts a) r = Undoable-Reversible (record { kept = inc_nonce-Kept a })
perform-Reversible crypto db (reads a k) r =
    Undoable-Reversible (record { kept = sload-Kept db a k })
perform-Reversible crypto db (writes a k v) r =
    Undoable-Reversible (record { kept = sstore-Kept db a k v })
perform-Reversible crypto db (writes_transient a k v) r =
    Undoable-Reversible (record { kept = tstore-Kept a k v })
perform-Reversible crypto db (logs l) r = Undoable-Reversible (record { kept = log-Kept l })
perform-Reversible crypto db (burns a sub_id holder amount) r =
    Undoable-Reversible (burn-Undoable crypto db a sub_id holder amount r)
perform-Reversible crypto db (mints minter recipient sub_id amount) r =
    mint_known-Reversible crypto db minter recipient sub_id amount r
perform-Reversible crypto db (sets_code a code) r = set_first_code-Reversible crypto a code
perform-Reversible crypto db (pays from to ts ws) r =
    ends_well-Reversible (λ s h. transfer-Kept db from to ts s r ws h)
