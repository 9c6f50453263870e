-- ===== src/NativeTokens/Dispatch.antt =====
-- `call_mut`: the base cost, the function selector, and the function that it selects.
use sabvm.Prelude.{ℕ, ltb, ◌==◌, if◌then◌else◌}
use sabvm.Journal.{Database, Crypto}
use sabvm.NativeTokens.Bytes.{Bytes, consume_u32_from}
use sabvm.NativeTokens.Monad.{
  ◌>>◌, ◌>>=◌, CallInputs, out_of_gas, invalid_input, ResultOrNewCall, P, fail, fail_if, parse,
}
use sabvm.NativeTokens.Calls.{balance_of, burn, mint, transfer, transfer_and_call}
use sabvm.NativeTokens.Arrays.{get_call_values, transfer_multiple, transfer_multiple_and_call}

abbrev pub base_gas_cost : ℕ
base_gas_cost = 15

abbrev pub balance_of_selector : ℕ
balance_of_selector = 0x00fdd58e

abbrev pub burn_selector : ℕ
burn_selector = 0x9eea5f66

abbrev pub get_call_values_selector : ℕ
get_call_values_selector = 0x6141a8b9

abbrev pub mint_selector : ℕ
mint_selector = 0x836a1040

abbrev pub transfer_and_call_selector : ℕ
transfer_and_call_selector = 0xd1c673e9

abbrev pub transfer_multiple_selector : ℕ
transfer_multiple_selector = 0x99583417

abbrev pub transfer_multiple_and_call_selector : ℕ
transfer_multiple_and_call_selector = 0x822bbe4c

abbrev pub transfer_selector : ℕ
transfer_selector = 0x095bcdb6

-- The `match` on the selector.
unfoldable pub dispatch : Crypto → Database → CallInputs → ℕ → ℕ → Bytes → P ResultOrNewCall
dispatch crypto db inputs gas_used selector input =
    if selector == balance_of_selector
    then balance_of db gas_used input
    else if selector == burn_selector
    then burn crypto db inputs gas_used input
    else if selector == get_call_values_selector
    then get_call_values db inputs gas_used
    else if selector == mint_selector
    then mint crypto db inputs gas_used input
    else if selector == transfer_and_call_selector
    then transfer_and_call db inputs input
    else if selector == transfer_multiple_and_call_selector
    then transfer_multiple_and_call db inputs input
    else if selector == transfer_multiple_selector
    then transfer_multiple db inputs gas_used input
    else if selector == transfer_selector
    then transfer db inputs gas_used input
    else fail invalid_input

unfoldable pub call_mut : Crypto → Database → CallInputs → ℕ → P ResultOrNewCall
unfolding dispatch
call_mut crypto db inputs gas_limit = do
  let gas_used = base_gas_cost
  fail_if (ltb gas_limit gas_used) out_of_gas
  (function_selector, input) ← parse (consume_u32_from inputs.input)
  dispatch crypto db inputs gas_used function_selector input
