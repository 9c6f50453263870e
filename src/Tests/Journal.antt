-- ===== src/Tests/Journal.antt =====
-- The journal's properties at concrete inputs, and runs of it.
use sabvm.Prelude.{⊤, Bool, true, false, List, [], ◌∷◌, Option, none, ◌≡◌, refl, arith}
use sabvm.Journal.{
  ◌>>◌, ◌>>=◌, JournaledState, Run, done, world, TokenTransfer, TransferError, balance_transfer,
  account_touched, journal_revert, checkpoint_revert, load_account, inc_nonce, transfer, burn,
  sstore, tstore, set_code, hash_slow, db_error, panic,
}
use sabvm.State.{keccak_empty, from_info}
use sabvm.Journal.View.{account_view, put_view}
use sabvm.Journal.Undo.{Undoes, Post, view_of}
use sabvm.Journal.Undo.Transfer.{touched_view}
use sabvm.Journal.Undo.Code.{with_code_hash, LeadsBack, set_code-reverted}
use sabvm.Journal.Undo.Accounts.{Kept, Loaded, load_account-Loaded, inc_nonce-Kept}
use sabvm.Journal.Undo.Storage.{sstore-Kept}
use sabvm.Journal.Undo.Transient.{tstore-Kept}
use sabvm.Journal.Undo.Native.{
  AllWords, no_words, words, TransferKept, transfer-Kept, burn-Undoable,
}
use sabvm.Journal.Undo.Work.{Undoable}
use sabvm.Journal.Undo.Checkpoint.{Restored, opened, mark_of, checkpoint_revert-Restored}
use sabvm.Journal.Undo.Script.{
  writes, writes_transient, pays, burns, counts, mints, sets_code, Script, finished, act, call,
  run_script, enclose,
}
use sabvm.Journal.Undo.Reversible.{run_script-Undoes, reverted_call-Restored}
use sabvm.Tests.Data.{
  db, crypto, state, db-InRange, state-Fits, state_of, is_done, Kept-state_of, holder,
}

abbrev payment : List TokenTransfer
payment = record { id = 7; amount = 10 } ∷ record { id = 0; amount = 1 } ∷ []

payment-AllWords : AllWords payment
payment-AllWords = words (omega arith) (words (omega arith) no_words)

-- A frame that writes a slot, mints, sets code, calls a frame that is committed, calls one that is
-- reverted, and pays.
abbrev script : Script
script = act (writes 1 2 9) (
    act (mints 1 2 0 5) (
      act (sets_code 2 (9 ∷ [])) (
        call true (act (writes_transient 1 1 4) (act (counts 2) finished)) (
          call false (act (burns 1 0 2 5) finished)
            (act (pays 1 2 payment payment-AllWords) finished)))))

-- Whether a run ended well.
abbrev ended_well : Run Bool → Bool
ended_well (done ok s) = ok
ended_well (db_error s) = false
ended_well panic = false

script-ended_well : ended_well (run_script crypto db script state) ≡ true
unfolding run_script sabvm.Prelude.checked_sub sabvm.State.get_balance sabvm.Journal.revert_parts
    journal_revert sabvm.Journal.revert_entry sabvm.Journal.modify_account sabvm.Journal.take_parts
    sabvm.Prelude.checked_add sabvm.State.increase_balance sabvm.State.set_balance
    sabvm.Prelude.wrapping_add
script-ended_well = refl

call_ended_well : ended_well (enclose false (run_script crypto db script) state) ≡ true
unfolding run_script sabvm.Prelude.checked_sub sabvm.State.get_balance sabvm.Journal.revert_parts
    journal_revert sabvm.Journal.revert_entry sabvm.Journal.modify_account sabvm.Journal.take_parts
    sabvm.Prelude.checked_add sabvm.State.increase_balance sabvm.State.set_balance
    sabvm.Prelude.wrapping_add sabvm.State.enabled sabvm.Journal.restore_slot
    sabvm.State.unmark_touch
call_ended_well = refl

reverted_call-Restored_example :
    Post
      (λ ok s'. ok ≡ true → Restored state s')
      (λ _. ⊤)
      (enclose false (run_script crypto db script) state)
reverted_call-Restored_example =
    reverted_call-Restored crypto db script state db-InRange state-Fits (omega arith)

run_script-Undoes_example :
    Post (λ ok s'. ok ≡ true → Undoes state s') (λ _. ⊤) (run_script crypto db script state)
run_script-Undoes_example =
    run_script-Undoes crypto db script state db-InRange state-Fits (omega arith)

abbrev written : JournaledState
written = state_of (sstore db 1 2 9 (opened state))

opened-Undoes : Undoes (opened state) written
unfolding sstore
opened-Undoes = Kept-state_of (sstore-Kept db 1 2 9 (opened state) state-Fits) refl

checkpoint_revert-Restored_example :
    (r : JournaledState) × ((checkpoint_revert (mark_of state) written ≡ done tt r)
      × Restored state r)
checkpoint_revert-Restored_example =
    checkpoint_revert-Restored state written opened-Undoes (omega arith)

set_code-is_done : is_done (set_code crypto 1 (9 ∷ []) state) ≡ true
unfolding set_code
set_code-is_done = refl

set_code-reverted_example :
    Post
      (λ _ s'.
        (view_of s'
          ≡ put_view 1
              (with_code_hash (hash_slow crypto (9 ∷ [])) (touched_view 1 (from_info holder)))
              (view_of state))
        × LeadsBack state
            (put_view 1
              (with_code_hash keccak_empty (account_view 1 (from_info holder)))
              (view_of state))
            s')
      (λ _. ⊥)
      (set_code crypto 1 (9 ∷ []) state)
set_code-reverted_example = set_code-reverted crypto 1 (9 ∷ []) state (from_info holder) refl

load_account-Loaded_example :
    Post (λ r s'. Loaded 1 r state s') (λ s'. Undoes state s') (load_account db 1 state)
load_account-Loaded_example = load_account-Loaded db 1 state db-InRange state-Fits

inc_nonce-Kept_example : Kept state (inc_nonce 1 state)
inc_nonce-Kept_example = inc_nonce-Kept 1 state state-Fits

sstore-Kept_example : Kept state (sstore db 1 2 9 state)
sstore-Kept_example = sstore-Kept db 1 2 9 state state-Fits

tstore-Kept_example : Kept state (tstore 1 2 9 state)
tstore-Kept_example = tstore-Kept 1 2 9 state state-Fits

transfer-Kept_example : TransferKept state (transfer db 1 2 payment state)
transfer-Kept_example = transfer-Kept db 1 2 payment state db-InRange payment-AllWords state-Fits

burn-Undoable_example : Undoable (burn crypto db 1 0 2 5)
burn-Undoable_example = burn-Undoable crypto db 1 0 2 5 db-InRange

answer_of : Run (Option TransferError) → Option TransferError
answer_of (done a s) = a
answer_of _ = none

transfer-is_done : is_done (transfer db 1 2 payment state) ≡ true
unfolding transfer sabvm.Prelude.checked_sub sabvm.State.get_balance sabvm.Prelude.checked_add
    sabvm.State.set_balance
transfer-is_done = refl

burn-is_done : is_done (burn crypto db 1 0 2 5 state) ≡ true
unfolding burn sabvm.Prelude.checked_sub sabvm.State.get_balance
burn-is_done = refl

inc_nonce-is_done : is_done (inc_nonce 1 state) ≡ true
unfolding inc_nonce
inc_nonce-is_done = refl

tstore-is_done : is_done (tstore 1 2 9 state) ≡ true
unfolding tstore
tstore-is_done = refl
