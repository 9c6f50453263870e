-- ===== src/Journal/Undo/Fill.antt =====
-- The proofs about undoing `load_code`, which fills in the code of an account.
use sabvm.Prelude.{Bool, [], some, ◌≡◌, refl, ap, ◌∙◌, ◌==◌, Bool-cases, inl, inr, if◌then◌else◌}
use sabvm.State.{Address, Account, Bytecode, keccak_empty, is_some, update, get_balance}
use sabvm.Journal.{
  ◌>>◌, ◌>>=◌, JournaledState, M, pure, query, world, Database, load_code, put_account,
  set_accounts,
}
use sabvm.Journal.View.{account_view, put_view, accounts-view}
use sabvm.Journal.Restore.{journal_revert_view}
use sabvm.Journal.Algebra.{put_view_same}
use sabvm.Journal.Undo.{Undoes, Undoes-refl, Fits, view_of, returns}
use sabvm.Journal.Undo.Touch.{
  Changes-Undoes, put_account-Changes, Post-bind, Changes-refl, put_account-view,
}
use sabvm.Journal.Undo.Accounts.{Kept, InRange, query-Post, load_account-Loaded}
use sabvm.Journal.Undo.Work.{Kept-after}

abbrev filled : Bytecode → Account → Account
filled code acc = record acc { info = record (acc.info) { code = some code } }

filled-view :
    (a : Address) (acc : Account) (code : Bytecode)
    → account_view a (filled code acc) ≡ account_view a acc
unfolding account_view get_balance
filled-view a acc code = refl

-- Filling in the code of an account leaves the view.
filled-Undoes :
    (a : Address) (acc : Account) (code : Bytecode) (s : JournaledState)
    → Fits (view_of s)
    → s.state.accounts a ≡ some acc
    → Undoes s (set_accounts (update s.state.accounts a (some (filled code acc))) s)
unfolding journal_revert_view
filled-Undoes a acc code s h e =
    Changes-Undoes [] (put_account-Changes a (filled code acc) [] (Changes-refl s)) (ap some same)
      (rw same h)
  where
    same : view_of (set_accounts (update s.state.accounts a (some (filled code acc))) s) ≡ view_of s
    same =
        put_account-view a (filled code acc) s
        ∙ ap (λ x. put_view a x (view_of s)) (filled-view a acc code)
        ∙ put_view_same a (account_view a acc) (view_of s) (accounts-view a acc (world s) e)

pub load_code-Kept :
    (db : Database) (a : Address) (s : JournaledState)
    → InRange db
    → Fits (view_of s)
    → Kept s (load_code db a s)
unfolding load_code
load_code-Kept db a s r h =
    Post-bind _ (load_account-Loaded db a s r h)
      λ (acc, cold) s1 (u, e). Kept-after u (found a acc cold s1 u.fits e)
  where
    fetch : Account → M Bytecode
    fetch acc =
        if acc.info.code_hash == keccak_empty
        then pure []
        else query (db.code_by_hash acc.info.code_hash)

    fill : Address → Account → Bool → M (Account × Bool)
    fill b acc cold = do
      code ← fetch acc
      put_account b (filled code acc)
      pure (filled code acc, cold)

    filling :
        (b : Address) (acc : Account) (cold : Bool) (t : JournaledState)
        → Fits (view_of t)
        → t.state.accounts b ≡ some acc
        → Kept t (fill b acc cold t)
    filling b acc cold t ft e = elim (Bool-cases (acc.info.code_hash == keccak_empty)) [
      | inl no_code ↦ rw no_code (returns (filled-Undoes b acc [] t ft e))
      | inr has_code ↦ rw has_code (
          query-Post (db.code_by_hash acc.info.code_hash) _ t (Undoes-refl t ft)
            λ code _. returns (filled-Undoes b acc code t ft e))
    ]

    found :
        (b : Address) (acc : Account) (cold : Bool) (t : JournaledState)
        → Fits (view_of t)
        → t.state.accounts b ≡ some acc
        → Kept t ((if is_some acc.info.code then pure (acc, cold) else fill b acc cold) t)
    found b acc cold t ft e = elim (Bool-cases (is_some acc.info.code)) [
      | inl present ↦ rw present (returns (Undoes-refl t ft))
      | inr missing ↦ rw missing (filling b acc cold t ft e)
    ]
