-- ===== src/NativeTokens/Answers.antt =====
-- What the precompile answers to a transfer, and to a question for the call's tokens.
use sabvm.Prelude.{
  ℕ, ⊤, ◌≤◌, ◌<◌, ◌+◌, ◌*◌, length, u256_mod, false, List, [], ◌∷◌, Option, some, ◌≡◌, refl, ap,
  ◌∙◌, arith,
}
use sabvm.State.{Address, U256, Account, bytecode_is_empty}
use sabvm.Journal.{JournaledState, Run, done, Database, Crypto, TokenTransfer, TransferError}
use sabvm.Journal
use sabvm.NativeTokens.Bytes.{Bytes, consume_address_from, consume_u256_from}
use sabvm.NativeTokens.{
  consume_u32_from, CallInputs, transfer_failed, unauthorized_caller,
  attempted_state_change_during_static_call, ResultOrNewCall, result, Outcome, ok, err, panic, P,
  ◌>>=◌, ◌>>◌, return, parse, end_of_input, or_error, fail_if, call_mut, dispatch,
  transfer_selector, get_call_values_selector, get_call_values, get_values, encode_call_values,
  base_gas_cost, transfer, run_transfer, check_caller, is_address_eoa, bind-ok,
}
use sabvm.NativeTokens.Encoding.{
  AllWords, get_ids, get_amounts, read_call_values, read_call_values-encode,
}
use sabvm.NativeTokens.Guards.{call_mut-dispatch, is_address_eoa-loaded}

-- A caller that is loaded and has code passes the checks of a call that is not static.
check_caller-contract :
    (db : Database) (inputs : CallInputs) (s : JournaledState) (acc : Account) (c : ℕ)
    (code : List ℕ)
    → inputs.is_static ≡ false
    → s.state.accounts inputs.target_address ≡ some acc
    → acc.info.code ≡ some (c ∷ code)
    → check_caller db inputs s ≡ ok tt s
unfolding check_caller
check_caller-contract db inputs s acc c code st e has =
    bind-ok (fail_if inputs.is_static attempted_state_change_during_static_call) (λ _. ask)
      not_static
    ∙ bind-ok (is_address_eoa db unauthorized_caller inputs.target_address)
        (λ is_eoa. fail_if is_eoa unauthorized_caller) {s = s}
        (is_address_eoa-loaded db unauthorized_caller inputs.target_address s acc (c ∷ code) e has)
    ∙ passed
  where
    ask : P ⊤
    ask = do
      is_eoa ← is_address_eoa db unauthorized_caller inputs.target_address
      fail_if is_eoa unauthorized_caller

    not_static : fail_if inputs.is_static attempted_state_change_during_static_call s ≡ ok tt s
    not_static = rw st

    passed : fail_if (bytecode_is_empty (c ∷ code)) unauthorized_caller s ≡ ok tt s
    passed = rw not_empty
      where
        not_empty : bytecode_is_empty (c ∷ code) ≡ false
        not_empty = unfold bytecode_is_empty in ground arith

module _ (db : Database) (inputs : CallInputs) (rest rest' rest'' : Bytes) (recipient id amount : ℕ)
    (s s' : JournaledState) (answer : Option TransferError)
    (checked : check_caller db inputs s ≡ ok tt s)
    (to : consume_address_from rest ≡ some (recipient, rest'))
    (token : consume_u256_from rest' ≡ some (id, rest''))
    (many : consume_u256_from rest'' ≡ some (amount, []))
    (moved : Journal.transfer db inputs.target_address recipient
        (record { id = id; amount = amount } ∷ [])
        s
      ≡ done answer s') where
  run_transfer-answers :
      run_transfer db inputs.target_address recipient
        (record { id = id; amount = amount } ∷ [])
        base_gas_cost
        s
      ≡ ok (result base_gas_cost []) s'
  unfolding run_transfer
  run_transfer-answers =
      bind-ok
        (or_error transfer_failed (
          Journal.transfer db inputs.target_address recipient
            (record { id = id; amount = amount } ∷ [])))
        (λ _. return (result base_gas_cost [])) {s = s} (ap outcome moved)
    where
      outcome : Run (Option TransferError) → Outcome (Option TransferError)
      outcome r = elim r [
        | Journal.done a t ↦ ok a t
        | Journal.db_error t ↦ err transfer_failed t
        | Journal.panic ↦ panic
      ]

  transfer-answers : transfer db inputs base_gas_cost rest s ≡ ok (result base_gas_cost []) s'
  unfolding transfer
  transfer-answers =
      bind-ok (check_caller db inputs) (λ _. first) checked
      ∙ bind-ok (parse (consume_address_from rest)) second (ap (λ o. parse o s) to)
      ∙ bind-ok (parse (consume_u256_from rest')) (third recipient) (ap (λ o. parse o s) token)
      ∙ bind-ok (parse (consume_u256_from rest'')) (last recipient id) (ap (λ o. parse o s) many)
      ∙ run_transfer-answers
    where
      last : Address → U256 → U256 × Bytes → P ResultOrNewCall
      last a t (n, left) =
          end_of_input left
          >> run_transfer db inputs.target_address a (record { id = t; amount = n } ∷ [])
              base_gas_cost

      third : Address → U256 × Bytes → P ResultOrNewCall
      third a (t, left) = parse (consume_u256_from left) >>= last a t

      second : Address × Bytes → P ResultOrNewCall
      second (a, left) = parse (consume_u256_from left) >>= third a

      first : P ResultOrNewCall
      first = parse (consume_address_from rest) >>= second

-- A well-formed call of the precompile's `transfer`, not static, with enough gas, from a loaded
-- contract, answers success with the base cost whatever `JournaledState::transfer` answered, an
-- insufficient balance included, as long as that was not an error of the database or a panic.
pub call_mut-transfer :
    (crypto : Crypto) (db : Database) (inputs : CallInputs) (gas_limit recipient id amount c : ℕ)
    (rest rest' rest'' code : List ℕ) (s s' : JournaledState) (acc : Account)
    (answer : Option TransferError)
    → inputs.is_static ≡ false
    → s.state.accounts inputs.target_address ≡ some acc
    → acc.info.code ≡ some (c ∷ code)
    → base_gas_cost ≤ gas_limit
    → consume_u32_from inputs.input ≡ some (transfer_selector, rest)
    → consume_address_from rest ≡ some (recipient, rest')
    → consume_u256_from rest' ≡ some (id, rest'')
    → consume_u256_from rest'' ≡ some (amount, [])
    → Journal.transfer db inputs.target_address recipient
        (record { id = id; amount = amount } ∷ [])
        s
      ≡ done answer s'
    → call_mut crypto db inputs gas_limit s ≡ ok (result base_gas_cost []) s'
call_mut-transfer crypto db inputs gas_limit recipient id amount c rest rest' rest'' code s s' acc
      answer st e has gas selected to token many moved =
    call_mut-dispatch crypto db inputs gas_limit transfer_selector rest s gas selected
    ∙ dispatch-transfer
    ∙ transfer-answers db inputs rest rest' rest'' recipient id amount s s' answer
        (check_caller-contract db inputs s acc c code st e has) to token many moved
  where
    dispatch-transfer :
        dispatch crypto db inputs base_gas_cost transfer_selector rest s
        ≡ transfer db inputs base_gas_cost rest s
    dispatch-transfer = unfold dispatch in refl

-- A call of the precompile's `getCallValues`, not static, with enough gas, from a loaded
-- contract, leaves the state as it was and answers with data which, read by its offsets and
-- lengths as the ABI has it, gives the ids and the amounts of the call's tokens in their order,
-- as long as they are words and the data is shorter than `2 ^ 256` bytes.
pub call_mut-get_call_values :
    (crypto : Crypto) (db : Database) (inputs : CallInputs) (gas_limit c : ℕ) (rest code : List ℕ)
    (s : JournaledState) (acc : Account)
    → inputs.is_static ≡ false
    → s.state.accounts inputs.target_address ≡ some acc
    → acc.info.code ≡ some (c ∷ code)
    → base_gas_cost ≤ gas_limit
    → consume_u32_from inputs.input ≡ some (get_call_values_selector, rest)
    → AllWords (get_values inputs.values)
    → 96 + length (get_values inputs.values) * 32 < u256_mod
    → (bytes : Bytes) × (call_mut crypto db inputs gas_limit s ≡ ok (result base_gas_cost bytes) s)
      × (read_call_values bytes
          ≡ some (get_ids (get_values inputs.values), get_amounts (get_values inputs.values)))
call_mut-get_call_values crypto db inputs gas_limit c rest code s acc st e has gas selected ws
      fits =
    (
      encode_call_values (get_values inputs.values),
      call_mut-dispatch crypto db inputs gas_limit get_call_values_selector rest s gas selected
          ∙ dispatch-get_call_values
          ∙ answers,
      read_call_values-encode (get_values inputs.values) ws fits,
    )
  where
    dispatch-get_call_values :
        dispatch crypto db inputs base_gas_cost get_call_values_selector rest s
        ≡ get_call_values db inputs base_gas_cost s
    dispatch-get_call_values = unfold dispatch in refl

    answers :
        get_call_values db inputs base_gas_cost s
        ≡ ok (result base_gas_cost (encode_call_values (get_values inputs.values))) s
    answers =
        unfold get_call_values in
        bind-ok (check_caller db inputs) _ (check_caller-contract db inputs s acc c code st e has)
