-- ===== src/Tests/NativeTokens.antt =====
-- The precompile at concrete inputs.
use sabvm.Prelude.{
  be_bytes, ◌++◌, ℕ, Bool, true, false, List, [], ◌∷◌, some, ◌≡◌, refl, arith, if◌then◌else◌,
}
use sabvm.State.{Account, from_info}
use sabvm.Journal.{JournaledState, done, TokenTransfer, out_of_funds}
use sabvm.Journal
use sabvm.NativeTokens.{
  consume_u32_from, consume_u256_from, consume_address_from, ok, result, base_gas_cost,
  transfer_selector, CallInputs, transfer_values, err, call_mut, burn_selector,
  get_call_values_selector, attempted_state_change_during_static_call, unauthorized_caller,
  invalid_input,
}
use sabvm.NativeTokens.Guards.{is_guarded, call_mut-static, call_mut-eoa}
use sabvm.NativeTokens.Answers.{call_mut-transfer, call_mut-get_call_values}
use sabvm.NativeTokens.Encoding.{AllWords, no_words, words, get_ids, get_amounts, read_call_values}
use sabvm.Tests.Data.{db, crypto, state, holder, state_of}

abbrev arguments : List ℕ
arguments = 1 ∷ []

abbrev inputs : Bool → CallInputs
inputs is_static = record {
  input = 0x9e ∷ 0xea ∷ 0x5f ∷ 0x66 ∷ arguments;
  target_address = 1;
  values = transfer_values [];
  is_static = is_static;
}

parsed : consume_u32_from (0x9e ∷ 0xea ∷ 0x5f ∷ 0x66 ∷ arguments) ≡ some (burn_selector, arguments)
unfolding consume_u32_from
parsed = refl

call_mut-static_example :
    call_mut crypto db (inputs true) 100 state
    ≡ err
        (if is_guarded burn_selector
          then attempted_state_change_during_static_call
          else invalid_input)
        state
call_mut-static_example =
    call_mut-static crypto db (inputs true) 100 burn_selector arguments state refl (omega arith)
      parsed refl

call_mut-eoa_example :
    call_mut crypto db (inputs false) 100 state
    ≡ err (if is_guarded burn_selector then unauthorized_caller else invalid_input) state
call_mut-eoa_example =
    call_mut-eoa crypto db (inputs false) 100 burn_selector arguments state (from_info holder) refl
      refl refl (omega arith) parsed refl

abbrev tokens : List TokenTransfer
tokens = record { id = 7; amount = 10 } ∷ record { id = 0; amount = 1 } ∷ []

tokens-AllWords : AllWords tokens
tokens-AllWords = words (omega arith) (omega arith) (words (omega arith) (omega arith) no_words)

-- Every address is a contract and holds 50 of token 7.
abbrev contract : Account
contract = record (from_info holder) { info = record holder { code = some (1 ∷ []) } }

abbrev contracts : JournaledState
contracts = record state { state = record (state.state) { accounts = λ _. some contract } }

abbrev overdraft : List TokenTransfer
overdraft = record { id = 7; amount = 60 } ∷ []

abbrev after_overdraft : JournaledState
after_overdraft = state_of (Journal.transfer db 1 2 overdraft contracts)

overdraft_refused :
    Journal.transfer db 1 2 overdraft contracts ≡ done (some out_of_funds) after_overdraft
unfolding Journal.transfer sabvm.Prelude.checked_sub sabvm.State.get_balance
overdraft_refused = refl

abbrev amount_bytes : List ℕ
amount_bytes = be_bytes 32 60

abbrev id_bytes : List ℕ
id_bytes = be_bytes 32 7 ++ amount_bytes

abbrev recipient_bytes : List ℕ
recipient_bytes = be_bytes 32 2 ++ id_bytes

abbrev transfer_inputs : CallInputs
transfer_inputs = record {
  input = 0x09 ∷ 0x5b ∷ 0xcd ∷ 0xb6 ∷ recipient_bytes;
  target_address = 1;
  values = transfer_values [];
  is_static = false;
}

selected :
    consume_u32_from (0x09 ∷ 0x5b ∷ 0xcd ∷ 0xb6 ∷ recipient_bytes)
    ≡ some (transfer_selector, recipient_bytes)
unfolding consume_u32_from be_bytes
selected = refl

recipient_read : consume_address_from recipient_bytes ≡ some (2, id_bytes)
unfolding consume_address_from be_bytes
recipient_read = refl

id_read : consume_u256_from id_bytes ≡ some (7, amount_bytes)
unfolding consume_u256_from be_bytes
id_read = refl

amount_read : consume_u256_from amount_bytes ≡ some (60, [])
unfolding consume_u256_from be_bytes
amount_read = refl

call_mut-transfer_example :
    call_mut crypto db transfer_inputs 100 contracts ≡ ok (result base_gas_cost []) after_overdraft
call_mut-transfer_example =
    call_mut-transfer crypto db transfer_inputs 100 2 7 60 1 recipient_bytes id_bytes amount_bytes
      [] contracts after_overdraft contract (some out_of_funds) refl refl refl (omega arith)
      selected recipient_read id_read amount_read overdraft_refused

abbrev call_values_inputs : CallInputs
call_values_inputs = record {
  input = 0x61 ∷ 0x41 ∷ 0xa8 ∷ 0xb9 ∷ [];
  target_address = 1;
  values = transfer_values tokens;
  is_static = false;
}

call_values_selected :
    consume_u32_from (0x61 ∷ 0x41 ∷ 0xa8 ∷ 0xb9 ∷ []) ≡ some (get_call_values_selector, [])
unfolding consume_u32_from
call_values_selected = refl

call_mut-get_call_values_example :
    (bytes : List ℕ) × (call_mut crypto db call_values_inputs 100 contracts
      ≡ ok (result base_gas_cost bytes) contracts)
    × (read_call_values bytes ≡ some (get_ids tokens, get_amounts tokens))
call_mut-get_call_values_example =
    call_mut-get_call_values crypto db call_values_inputs 100 1 [] [] contracts contract refl refl
      refl (omega arith) call_values_selected tokens-AllWords (omega arith)
