-- ===== src/NativeTokens/Arrays.antt =====
-- The functions of the precompile over several tokens.
use sabvm.Prelude.{
  ℕ, ◌+◌, ◌*◌, ◌%◌, ◌^◌, Bool, not, ⊤, List, [], ◌∷◌, ◌++◌, ltb, ◌==◌, if◌then◌else◌, length,
  be_bytes, contains, u64_mod, u256_mod,
}
use sabvm.State.{U256}
use sabvm.Journal.{Database, TokenTransfer}
use sabvm.NativeTokens.Bytes.{
  Bytes, consume_address_from, consume_u256_from, consume_bytes_from, consume_words,
}
use sabvm.NativeTokens.Monad.{
  ◌>>◌, ◌>>=◌, CallInputs, get_values, invalid_input, ResultOrNewCall, result, call, ok, panic, P,
  return, fail_if, parse, end_of_input,
}
use sabvm.NativeTokens.Calls.{check_caller, check_callee, run_transfer, strip_prefix, to_usize}

-- The elements of a slice as a `HashSet`.
unfoldable pub hash_set : List U256 → List U256
hash_set [] = []
hash_set (x ∷ xs) = let rest = hash_set xs in if contains rest x then rest else x ∷ rest

-- As many elements as distinct elements.
unfoldable pub are_unique : List U256 → Bool
unfolding hash_set
are_unique ids = length ids == length (hash_set ids)

abbrev pub zip_transfers : List U256 → List U256 → List TokenTransfer
zip_transfers [] amounts = []
zip_transfers (id ∷ ids) [] = []
zip_transfers (id ∷ ids) (amount ∷ amounts) =
    record { id = id; amount = amount } ∷ zip_transfers ids amounts

-- The last 8 bytes of a length, as a `u64`.
unfoldable pub low_u64 : U256 → ℕ
low_u64 x = x % u64_mod

unfoldable pub transfer_multiple : Database → CallInputs → ℕ → Bytes → P ResultOrNewCall
unfolding check_caller run_transfer are_unique low_u64
transfer_multiple db inputs gas_used input = do
  check_caller db inputs
  (recipient, input) ← parse (consume_address_from input)
  (ids_offset, input) ← parse (consume_u256_from input)
  (amounts_offset, input) ← parse (consume_u256_from input)
  (token_ids_len, input) ← parse (consume_u256_from input)
  (token_ids, input) ← parse (consume_words (low_u64 token_ids_len) input)
  fail_if (not (are_unique token_ids)) invalid_input
  (transfer_amounts_len, input) ← parse (consume_u256_from input)
  fail_if (not (token_ids_len == transfer_amounts_len)) invalid_input
  (transfer_amounts, input) ← parse (consume_words (low_u64 transfer_amounts_len) input)
  end_of_input input
  run_transfer db inputs.target_address recipient (zip_transfers token_ids transfer_amounts)
      gas_used

-- `Vec::with_capacity(capacity)` of transfers of 64 bytes: a panic above `isize::MAX` bytes.
unfoldable pub with_capacity : ℕ → P ⊤
with_capacity capacity s = if ltb (capacity * 64) (2 ^ 63) then ok tt s else panic

unfoldable pub transfer_multiple_and_call : Database → CallInputs → Bytes → P ResultOrNewCall
unfolding check_caller check_callee with_capacity are_unique strip_prefix to_usize
transfer_multiple_and_call db inputs input = do
  check_caller db inputs
  (recipient_and_callee, input) ← parse (consume_address_from input)
  check_callee db recipient_and_callee
  (ids_offset, input) ← parse (consume_u256_from input)
  (amounts_offset, input) ← parse (consume_u256_from input)
  (calldata_offset, input) ← parse (consume_u256_from input)
  (token_ids_len, input) ← parse (consume_u256_from input)
  let capacity = to_usize token_ids_len
  with_capacity capacity
  (token_ids, input) ← parse (consume_words capacity input)
  fail_if (not (are_unique token_ids)) invalid_input
  (transfer_amounts_len, input) ← parse (consume_u256_from input)
  fail_if (not (token_ids_len == transfer_amounts_len)) invalid_input
  (amounts, input) ← parse (consume_words (length token_ids) input)
  (calldata_size, input) ← parse (consume_u256_from input)
  (calldata, input) ← parse (consume_bytes_from (to_usize calldata_size) input)
  end_of_input input
  calldata ← strip_prefix calldata
  return (call recipient_and_callee (zip_transfers token_ids amounts) calldata)

abbrev pub encode_ids : List TokenTransfer → Bytes
encode_ids [] = []
encode_ids (t ∷ ts) = be_bytes 32 t.id ++ encode_ids ts

abbrev pub encode_amounts : List TokenTransfer → Bytes
encode_amounts [] = []
encode_amounts (t ∷ ts) = be_bytes 32 t.amount ++ encode_amounts ts

-- The data that `get_call_values` returns: two offsets, and two arrays with their lengths.
unfoldable pub encode_call_values : List TokenTransfer → Bytes
encode_call_values values =
    let token_ids_len = length values in
    be_bytes 32 64
    ++ (be_bytes 32 ((64 + 32 + token_ids_len * 32) % u256_mod)
        ++ (be_bytes 32 token_ids_len
            ++ (encode_ids values ++ (be_bytes 32 token_ids_len ++ encode_amounts values))))

unfoldable pub get_call_values : Database → CallInputs → ℕ → P ResultOrNewCall
unfolding check_caller encode_call_values
get_call_values db inputs gas_used = do
  check_caller db inputs
  return (result gas_used (encode_call_values (get_values inputs.values)))
