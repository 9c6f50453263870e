-- ===== src/Journal/Undo/Reversible.antt =====
-- The proofs about undoing sequences of journaled work, with calls in them.
use sabvm.Prelude.{◌<◌, ⊤, Bool, true, false, ◌≡◌, refl, if◌then◌else◌, arith, u64_mod}
use sabvm.Journal.{
  JournaledState, Run, M, ◌>>◌, then_run, pure, Database, Crypto, checkpoint, checkpoint_commit,
}
use sabvm.Journal.Undo.{Undoes, Fits, view_of, Post, returns, fails, panics}
use sabvm.Journal.Undo.Accounts.{InRange}
use sabvm.Journal.Undo.Checkpoint.{
  Restored, opened, mark_of, checkpoint_revert-Restored, commit_Undoes, Restored-Undoes,
}
use sabvm.Journal.Undo.Actions.{Reversible, Reversible-pure, Reversible-seq, perform-Reversible}
use sabvm.Journal.Undo.Script.{Script, finished, act, call, end_call, enclose, run_script}

-- A call, committed or reverted, from the state that its checkpoint opened.
enclosed :
    (commits : Bool) (s : JournaledState) {r : Run Bool}
    → Fits (view_of s)
    → s.depth < u64_mod
    → Post (λ ok s'. ok ≡ true → Undoes (opened s) s') (λ _. ⊤) r
    → Post
        (λ ok s'. (ok ≡ true → Undoes s s') × (ok ≡ true → commits ≡ false → Restored s s'))
        (λ _. ⊤)
        (then_run r (λ ok. if ok then end_call commits (mark_of s) >> pure true else pure false))
enclosed commits s h d (fails v) = fails tt
enclosed commits s h d panics = panics
enclosed commits s h d (returns {a = false} v) =
    returns ((λ e. ground (arith, e)), (λ e. ground (arith, e)))
enclosed true s h d (returns {a = true} {s = s'} v) =
    unfold checkpoint_commit in
    returns ((λ _. commit_Undoes s s' (v refl) d), (λ _ e. ground (arith, e)))
enclosed false s h d (returns {a = true} {s = s'} v) =
    let (r, (e, back)) = checkpoint_revert-Restored s s' (v refl) d in
    rw e (returns ((λ _. Restored-Undoes s r h back), (λ _ _. back)))

called : (commits : Bool) {m : M Bool} → Reversible m → Reversible (enclose commits m)
unfolding checkpoint
called commits {m} h = record {
  undone = λ s fits d. go (enclosed commits s fits d (h.undone (opened s) fits (omega arith)));
}
  where
    go :
        {s : JournaledState} {r : Run Bool}
        → Post
            (λ ok s'. (ok ≡ true → Undoes s s') × (ok ≡ true → commits ≡ false → Restored s s'))
            (λ _. ⊤)
            r
        → Post (λ ok s'. ok ≡ true → Undoes s s') (λ _. ⊤) r
    go (returns (u, _)) = returns u
    go (fails u) = fails u
    go panics = panics

run_script-Reversible :
    (crypto : Crypto) (db : Database) (script : Script)
    → InRange db
    → Reversible (run_script crypto db script)
unfolding run_script
run_script-Reversible crypto db finished r = Reversible-pure true
run_script-Reversible crypto db (act a rest) r =
    Reversible-seq (perform-Reversible crypto db a r) (run_script-Reversible crypto db rest r)
run_script-Reversible crypto db (call commits callee rest) r =
    Reversible-seq (called commits (run_script-Reversible crypto db callee r))
      (run_script-Reversible crypto db rest r)

-- The work of a frame is a sequence of actions (loads of accounts, of their code and of token
-- ids, touches, nonces, slots read and written, transient slots, logs, mints, burns, transfers
-- and the setting of code) and of calls nested to any depth, committed or reverted. If it
-- returns, and if no transfer overflowed its receiver's balance, every mint was of an id known
-- before it, and code was set on accounts without code only, then it is undone by the entries
-- that the journal holds for it: reverting them gives back the view of the state before.
-- Creations and self-destructions are not among the actions. The numbers of that state are in
-- range, and the database answers with machine integers.
pub run_script-Undoes :
    (crypto : Crypto) (db : Database) (script : Script) (s : JournaledState)
    → InRange db
    → Fits (view_of s)
    → s.depth < u64_mod
    → Post (λ ok s'. ok ≡ true → Undoes s s') (λ _. ⊤) (run_script crypto db script s)
run_script-Undoes crypto db script s r h d = (run_script-Reversible crypto db script r).undone s h d

-- A reverted call whose work is a sequence of actions (loads of accounts, of their code and of
-- token ids, touches, nonces, slots read and written, transient slots, logs, mints, burns,
-- transfers and the setting of code) and of nested calls, committed or reverted, leaves no trace:
-- if the work and the reversal after it return, and if no transfer overflowed its receiver's
-- balance, every mint was of an id known before it, and code was set on accounts without code
-- only, then the call ends with the view, the journal, the logs, the depth and the spec that it
-- began with. Creations and self-destructions are not among the actions. The numbers of the state
-- that it begins with are in range, and the database answers with machine integers.
pub reverted_call-Restored :
    (crypto : Crypto) (db : Database) (callee : Script) (s : JournaledState)
    → InRange db
    → Fits (view_of s)
    → s.depth < u64_mod
    → Post
        (λ ok s'. ok ≡ true → Restored s s')
        (λ _. ⊤)
        (enclose false (run_script crypto db callee) s)
unfolding checkpoint
reverted_call-Restored crypto db callee s r h d = go (
    enclosed false s h d
      ((run_script-Reversible crypto db callee r).undone (opened s) h (omega arith)))
  where
    go :
        {x : Run Bool}
        → Post
            (λ ok s'. (ok ≡ true → Undoes s s') × (ok ≡ true → false ≡ false → Restored s s'))
            (λ _. ⊤)
            x
        → Post (λ ok s'. ok ≡ true → Restored s s') (λ _. ⊤) x
    go (returns (_, back)) = returns (λ e. back e refl)
    go (fails u) = fails u
    go panics = panics
