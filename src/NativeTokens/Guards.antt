-- ===== src/NativeTokens/Guards.antt =====
-- Who may change the state through the precompile.
use sabvm.Prelude.{
  ℕ, ⊤, ◌≤◌, Bool, true, false, ◌||◌, [], none, some, ◌≡◌, refl, ◌∙◌, arith, ltb, ◌==◌,
  if◌then◌else◌,
}
use sabvm.State.{Address, Account, Bytecode, bytecode_is_empty, is_some}
use sabvm.Journal.{JournaledState, done, Database, Crypto, load_code, load_account}
use sabvm.NativeTokens.Bytes.{Bytes}
use sabvm.NativeTokens.{
  ◌>>=◌, consume_u32_from, CallInputs, PrecompileError, out_of_gas, invalid_input,
  unauthorized_caller, attempted_state_change_during_static_call, ok, err, panic, call_mut,
  dispatch, balance_of_selector, burn_selector, get_call_values_selector, mint_selector,
  transfer_and_call_selector, transfer_multiple_and_call_selector, transfer_multiple_selector,
  transfer_selector, base_gas_cost, burn, mint, transfer, transfer_and_call, transfer_multiple,
  transfer_multiple_and_call, get_call_values, bind-err, bind-ok, fail_if, parse, or_error, return,
  P, check_caller, is_address_eoa,
}

-- The selectors of the functions that begin with the checks of the caller: all but `balanceOf`.
abbrev pub is_guarded : ℕ → Bool
is_guarded selector =
    selector == burn_selector
    || selector == get_call_values_selector
    || selector == mint_selector
    || selector == transfer_and_call_selector
    || selector == transfer_multiple_and_call_selector
    || selector == transfer_multiple_selector
    || selector == transfer_selector

-- Every guarded function ends with the error that the checks of the caller give.
module _ (crypto : Crypto) (db : Database) (inputs : CallInputs) (rest : Bytes) (s : JournaledState)
    (e : PrecompileError) (refused : check_caller db inputs s ≡ err e s) where
  burn-refused : burn crypto db inputs base_gas_cost rest s ≡ err e s
  unfolding burn
  burn-refused = bind-err (check_caller db inputs) _ refused

  get_call_values-refused : get_call_values db inputs base_gas_cost s ≡ err e s
  unfolding get_call_values
  get_call_values-refused = bind-err (check_caller db inputs) _ refused

  mint-refused : mint crypto db inputs base_gas_cost rest s ≡ err e s
  unfolding mint
  mint-refused = bind-err (check_caller db inputs) _ refused

  transfer_and_call-refused : transfer_and_call db inputs rest s ≡ err e s
  unfolding transfer_and_call
  transfer_and_call-refused = bind-err (check_caller db inputs) _ refused

  transfer_multiple_and_call-refused : transfer_multiple_and_call db inputs rest s ≡ err e s
  unfolding transfer_multiple_and_call
  transfer_multiple_and_call-refused = bind-err (check_caller db inputs) _ refused

  transfer_multiple-refused : transfer_multiple db inputs base_gas_cost rest s ≡ err e s
  unfolding transfer_multiple
  transfer_multiple-refused = bind-err (check_caller db inputs) _ refused

  transfer-refused : transfer db inputs base_gas_cost rest s ≡ err e s
  unfolding transfer
  transfer-refused = bind-err (check_caller db inputs) _ refused

  dispatch-refused :
      (selector : ℕ)
      → (selector == balance_of_selector) ≡ false
      → dispatch crypto db inputs base_gas_cost selector rest s
        ≡ err (if is_guarded selector then e else invalid_input) s
  unfolding dispatch
  dispatch-refused selector other = ground (
    arith, other, burn-refused, get_call_values-refused, mint-refused, transfer_and_call-refused,
    transfer_multiple_and_call-refused, transfer_multiple-refused, transfer-refused,
  )

pub call_mut-dispatch :
    (crypto : Crypto) (db : Database) (inputs : CallInputs) (gas_limit selector : ℕ) (rest : Bytes)
    (s : JournaledState)
    → base_gas_cost ≤ gas_limit
    → consume_u32_from inputs.input ≡ some (selector, rest)
    → call_mut crypto db inputs gas_limit s
      ≡ dispatch crypto db inputs base_gas_cost selector rest s
unfolding call_mut
call_mut-dispatch crypto db inputs gas_limit selector rest s gas parsed =
    bind-ok (fail_if (ltb gas_limit 15) out_of_gas) _ enough
    ∙ bind-ok (parse (consume_u32_from inputs.input)) _ found
  where
    enough : fail_if (ltb gas_limit 15) out_of_gas s ≡ ok tt s
    enough = rw below
      where
        below : ltb gas_limit 15 ≡ false
        below = ground (arith, gas)

    found : parse (consume_u32_from inputs.input) s ≡ ok (selector, rest) s
    found = rw parsed

-- A static call with enough gas and a selector other than that of `balanceOf` is refused as a
-- state change if the selector is one of the precompile's, and as invalid input if not, and the
-- state stays as it was.
pub call_mut-static :
    (crypto : Crypto) (db : Database) (inputs : CallInputs) (gas_limit selector : ℕ) (rest : Bytes)
    (s : JournaledState)
    → inputs.is_static ≡ true
    → base_gas_cost ≤ gas_limit
    → consume_u32_from inputs.input ≡ some (selector, rest)
    → (selector == balance_of_selector) ≡ false
    → call_mut crypto db inputs gas_limit s
      ≡ err
          (if is_guarded selector then attempted_state_change_during_static_call else invalid_input)
          s
call_mut-static crypto db inputs gas_limit selector rest s st gas parsed other =
    call_mut-dispatch crypto db inputs gas_limit selector rest s gas parsed
    ∙ dispatch-refused crypto db inputs rest s attempted_state_change_during_static_call
        (unfold check_caller in rw st) selector other

load_account-loaded :
    (db : Database) (a : Address) (s : JournaledState) (acc : Account)
    → s.state.accounts a ≡ some acc
    → load_account db a s ≡ done (acc, false) s
unfolding load_account
load_account-loaded db a s acc e = rw (e, load_account)

load_code-loaded :
    (db : Database) (a : Address) (s : JournaledState) (acc : Account) (code : Bytecode)
    → s.state.accounts a ≡ some acc
    → acc.info.code ≡ some code
    → load_code db a s ≡ done (acc, false) s
unfolding load_code
load_code-loaded db a s acc code e c = rw (load_account-loaded db a s acc e) (rw (c, is_some))

pub is_address_eoa-loaded :
    (db : Database) (error : PrecompileError) (a : Address) (s : JournaledState) (acc : Account)
    (code : Bytecode)
    → s.state.accounts a ≡ some acc
    → acc.info.code ≡ some code
    → is_address_eoa db error a s ≡ ok (bytecode_is_empty code) s
unfolding is_address_eoa
is_address_eoa-loaded db error a s acc code e c =
    bind-ok (or_error error (load_code db a)) answer {s = s} loaded ∙ found
  where
    answer : Account × Bool → P Bool
    answer (acc', _) = elim acc'.info.code [
      | none ↦ λ s'. panic
      | some code' ↦ return (bytecode_is_empty code')
    ]

    found : answer (acc, false) s ≡ ok (bytecode_is_empty code) s
    found = rw c

    loaded : or_error error (load_code db a) s ≡ ok (acc, false) s
    loaded = rw (load_code-loaded db a s acc code e c, or_error)

check_caller-eoa :
    (db : Database) (inputs : CallInputs) (s : JournaledState) (acc : Account)
    → inputs.is_static ≡ false
    → s.state.accounts inputs.target_address ≡ some acc
    → acc.info.code ≡ some []
    → check_caller db inputs s ≡ err unauthorized_caller s
unfolding check_caller
check_caller-eoa db inputs s acc st e code =
    bind-ok (fail_if inputs.is_static attempted_state_change_during_static_call) (λ _. ask)
      not_static
    ∙ bind-ok (is_address_eoa db unauthorized_caller inputs.target_address)
        (λ is_eoa. fail_if is_eoa unauthorized_caller) {s = s}
        (is_address_eoa-loaded db unauthorized_caller inputs.target_address s acc [] e code)
    ∙ refused
  where
    ask : P ⊤
    ask = do
      is_eoa ← is_address_eoa db unauthorized_caller inputs.target_address
      fail_if is_eoa unauthorized_caller

    not_static : fail_if inputs.is_static attempted_state_change_during_static_call s ≡ ok tt s
    not_static = rw st

    refused : fail_if (bytecode_is_empty []) unauthorized_caller s ≡ err unauthorized_caller s
    refused = unfold bytecode_is_empty in refl

-- A call that is not static, with enough gas, from an account that is loaded and has empty code,
-- with a selector other than that of `balanceOf`, is refused as coming from an unauthorized
-- caller if the selector is one of the precompile's, and as invalid input if not, and the state
-- stays as it was.
pub call_mut-eoa :
    (crypto : Crypto) (db : Database) (inputs : CallInputs) (gas_limit selector : ℕ) (rest : Bytes)
    (s : JournaledState) (acc : Account)
    → inputs.is_static ≡ false
    → s.state.accounts inputs.target_address ≡ some acc
    → acc.info.code ≡ some []
    → base_gas_cost ≤ gas_limit
    → consume_u32_from inputs.input ≡ some (selector, rest)
    → (selector == balance_of_selector) ≡ false
    → call_mut crypto db inputs gas_limit s
      ≡ err (if is_guarded selector then unauthorized_caller else invalid_input) s
call_mut-eoa crypto db inputs gas_limit selector rest s acc st e code gas parsed other =
    call_mut-dispatch crypto db inputs gas_limit selector rest s gas parsed
    ∙ dispatch-refused crypto db inputs rest s unauthorized_caller
        (check_caller-eoa db inputs s acc st e code) selector other
