-- ===== src/Tests/Effects.antt =====
-- The effects of the journal's methods at concrete inputs.
use sabvm.Prelude.{ℕ, ⊤, true, false, ◌&&◌, ◌≡◌, ◌≢◌, refl, arith, ◌==◌, if◌then◌else◌}
use sabvm.State.{from_info, cancun, unwrap_or, is_empty, set_balance, default_info}
use sabvm.State.Empty.{is_empty-set_balance}
use sabvm.Journal.{
  done, create_collision, TokenTransfer, transfer_token, create_account_checkpoint, sload, sstore,
  tload, tstore,
}
use sabvm.Journal.Undo.{view_of, Post}
use sabvm.Journal.Undo.Checkpoint.{Restored}
use sabvm.Journal.Effects.Slots.{sload-sstore, tload-tstore}
use sabvm.Journal.Effects.Balances.{Paid, transfer_token-Paid}
use sabvm.Journal.Effects.Create.{is_taken, create_account_checkpoint-collision}
use sabvm.Tests.Data.{db, state, state-Fits, holder, is_done}

abbrev payment : TokenTransfer
payment = record { id = 7; amount = 10 }

two_ne_one : ◌≢◌ {A = ℕ} 2 1
two_ne_one e = ground (arith, e)

sload-sstore_example :
    Post (λ _ s'. sload db 1 2 s' ≡ done (9, false) s') (λ _. ⊤) (sstore db 1 2 9 state)
sload-sstore_example = sload-sstore db 1 2 9 state state-Fits

tload-tstore_example :
    Post
      (λ _ s'.
        tload 1 2 s'
        ≡ done (if 1 == 1 && 2 == 2 then 9 else unwrap_or 0 (state.transient_storage 1 2)) s')
      (λ _. ⊤)
      (tstore 1 2 9 state)
tload-tstore_example = tload-tstore 1 2 9 1 2 state

transfer_token-Paid_example :
    Post
      (λ r s'. Paid 1 2 7 10 (view_of state) r (view_of s'))
      (λ _. ⊥)
      (transfer_token 1 2 payment state)
transfer_token-Paid_example = transfer_token-Paid 1 2 payment state state-Fits two_ne_one

create_account_checkpoint-collision_example :
    Post
      (λ r s'.
        (is_taken (from_info holder) false ≡ true → (r ≡ create_collision) × Restored state s')
        × (is_taken (from_info holder) false ≡ false → r ≢ create_collision))
      (λ _. ⊤)
      (create_account_checkpoint 1 2 10 cancun state)
create_account_checkpoint-collision_example =
    create_account_checkpoint-collision 1 2 10 cancun state (from_info holder) refl state-Fits
      (omega arith)

default_is_empty : is_empty default_info ≡ true
unfolding is_empty
default_is_empty = refl

is_empty-set_balance_example : is_empty (set_balance 7 0 default_info) ≡ false
is_empty-set_balance_example = is_empty-set_balance 7 0 default_info refl default_is_empty

sstore-is_done : is_done (sstore db 1 2 9 state) ≡ true
unfolding sstore
sstore-is_done = refl

transfer_token-is_done : is_done (transfer_token 1 2 payment state) ≡ true
unfolding transfer_token sabvm.Prelude.checked_sub sabvm.State.get_balance sabvm.Prelude.checked_add
transfer_token-is_done = refl

create_is_done : is_done (create_account_checkpoint 1 2 10 cancun state) ≡ true
unfolding create_account_checkpoint sabvm.Journal.revert_parts sabvm.Journal.journal_revert
create_is_done = refl
