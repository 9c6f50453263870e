-- ===== src/NativeTokens/Calls.antt =====
-- The functions of the precompile over one token.
use sabvm.Prelude.{
  ℕ, Bool, ⊤, List, [], ◌∷◌, none, some, ltb, if◌then◌else◌, length, drop, be_bytes, u64_mod,
}
use sabvm.State.{Address, U256, get_balance, bytecode_is_empty}
use sabvm.Journal.{Database, M, Crypto, TokenTransfer, load_account, load_code}
use sabvm.Journal
use sabvm.NativeTokens.Bytes.{Bytes, consume_address_from, consume_u256_from, consume_bytes_from}
use sabvm.NativeTokens.Monad.{
  ◌>>◌, ◌>>=◌, CallInputs, PrecompileError, invalid_input,
  attempted_state_change_during_static_call, unauthorized_caller, mint_failed, burn_failed,
  transfer_failed, ResultOrNewCall, result, call, ok, panic, P, return, fail, fail_if, or_error,
  parse, end_of_input,
}

-- `evmctx.code(address)` and `bytecode.is_empty()`; a missing code after the load is a panic.
unfoldable pub is_address_eoa : Database → PrecompileError → Address → P Bool
unfolding load_code bytecode_is_empty
is_address_eoa db e address = do
  (acc, is_cold) ← or_error e (load_code db address)
  elim acc.info.code [ none ↦ λ s. panic | some code ↦ return (bytecode_is_empty code) ]

-- The two checks with which the functions that change state begin: the call is not static, and
-- its caller is a contract.
unfoldable pub check_caller : Database → CallInputs → P ⊤
unfolding is_address_eoa
check_caller db inputs = do
  fail_if inputs.is_static attempted_state_change_during_static_call
  is_eoa ← is_address_eoa db unauthorized_caller inputs.target_address
  fail_if is_eoa unauthorized_caller

-- The callee of `transfer_and_call` is a contract.
unfoldable pub check_callee : Database → Address → P ⊤
unfolding is_address_eoa
check_callee db callee = do
  is_eoa ← is_address_eoa db invalid_input callee
  fail_if is_eoa invalid_input

-- `evmctx.balance(token_id, address)`
unfoldable pub balance : Database → U256 → Address → M U256
unfolding load_account
balance db token_id address s = elim (load_account db address s) [
  | Journal.done (acc, is_cold) s' ↦ Journal.done (get_balance token_id acc.info) s'
  | Journal.db_error s' ↦ Journal.db_error s'
  | Journal.panic ↦ Journal.panic
]

unfoldable pub balance_of : Database → ℕ → Bytes → P ResultOrNewCall
unfolding balance
balance_of db gas_used input = do
  (address, input) ← parse (consume_address_from input)
  (token_id, input) ← parse (consume_u256_from input)
  end_of_input input
  balance ← or_error invalid_input (balance db token_id address)
  return (result gas_used (be_bytes 32 balance))

-- A Boolean result of the journaled state: success, or the error.
abbrev pub finish : ℕ → PrecompileError → M Bool → P ResultOrNewCall
finish gas_used e m = do
  success ← or_error e m
  if success then return (result gas_used []) else fail e

unfoldable pub mint : Crypto → Database → CallInputs → ℕ → Bytes → P ResultOrNewCall
unfolding check_caller
mint crypto db inputs gas_used input = do
  check_caller db inputs
  (sub_id, input) ← parse (consume_u256_from input)
  (recipient, input) ← parse (consume_address_from input)
  (amount, input) ← parse (consume_u256_from input)
  end_of_input input
  finish gas_used mint_failed (Journal.mint crypto db inputs.target_address recipient sub_id amount)

unfoldable pub burn : Crypto → Database → CallInputs → ℕ → Bytes → P ResultOrNewCall
unfolding check_caller
burn crypto db inputs gas_used input = do
  check_caller db inputs
  (sub_id, input) ← parse (consume_u256_from input)
  (token_holder, input) ← parse (consume_address_from input)
  (amount, input) ← parse (consume_u256_from input)
  end_of_input input
  finish gas_used burn_failed
      (Journal.burn crypto db inputs.target_address sub_id token_holder amount)

-- `journaled_state.transfer(..).is_ok()`: the value of the call, where an insufficient balance is
-- reported, is not looked at.
unfoldable pub run_transfer :
    Database → Address → Address → List TokenTransfer → ℕ → P ResultOrNewCall
run_transfer db sender recipient transfers gas_used = do
  _ ← or_error transfer_failed (Journal.transfer db sender recipient transfers)
  return (result gas_used [])

unfoldable pub transfer : Database → CallInputs → ℕ → Bytes → P ResultOrNewCall
unfolding check_caller run_transfer
transfer db inputs gas_used input = do
  check_caller db inputs
  (recipient, input) ← parse (consume_address_from input)
  (token_id, input) ← parse (consume_u256_from input)
  (amount, input) ← parse (consume_u256_from input)
  end_of_input input
  let transfer : TokenTransfer = record { id = token_id; amount = amount }
  run_transfer db inputs.target_address recipient (transfer ∷ []) gas_used

-- `calldata[28..]`: a shorter slice is a panic.
unfoldable pub strip_prefix : Bytes → P Bytes
strip_prefix calldata s = if ltb (length calldata) 28 then panic else ok (drop 28 calldata) s

-- `u256.try_into().unwrap_or_default()` into a `usize`.
unfoldable pub to_usize : U256 → ℕ
to_usize x = if ltb x u64_mod then x else 0

unfoldable pub transfer_and_call : Database → CallInputs → Bytes → P ResultOrNewCall
unfolding check_caller check_callee strip_prefix to_usize
transfer_and_call db inputs input = do
  check_caller db inputs
  (recipient_and_callee, input) ← parse (consume_address_from input)
  check_callee db recipient_and_callee
  (token_id, input) ← parse (consume_u256_from input)
  (amount, input) ← parse (consume_u256_from input)
  (offset, input) ← parse (consume_u256_from input)
  (calldata_size, input) ← parse (consume_u256_from input)
  (calldata, input) ← parse (consume_bytes_from (to_usize calldata_size) input)
  end_of_input input
  calldata ← strip_prefix calldata
  let transfer : TokenTransfer = record { id = token_id; amount = amount }
  return (call recipient_and_callee (transfer ∷ []) calldata)
