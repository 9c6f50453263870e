-- ===== src/Gas/Calc.antt =====
-- The price functions of crates/interpreter/src/gas/calc.rs, but for those of `SSTORE`.
use sabvm.Prelude.{
  ℕ, zero, suc, ◌+◌, ◌-◌, ◌*◌, ◌/◌, ◌%◌, ◌^◌, Bool, not, ◌&&◌, List, [], ◌∷◌, Option, none, some,
  ltb, ◌==◌, if◌then◌else◌, length, u64_mod, u256_mod, checked_add, checked_mul,
}
use sabvm.State.{
  U256, Address, SpecId, enabled, homestead, tangerine, spurious_dragon, istanbul, berlin, shanghai,
}
use sabvm.Journal.{SelfDestructResult}
use sabvm.Gas.Constants.{
  verylow, create, callvalue, newaccount, exp, memory, log, logdata, logtopic, keccak256,
  keccak256word, copy, instanbul_sload_gas, transaction_zero_data, access_list_address,
  access_list_storage_key, cold_sload_cost, cold_account_access_cost, warm_storage_read_cost,
  initcode_word_cost,
}

-- `u64::saturating_add` and `u64::saturating_mul`
unfoldable pub saturating_add64 : ℕ → ℕ → ℕ
saturating_add64 a b = if ltb (a + b) u64_mod then a + b else u64_mod - 1

unfoldable pub saturating_mul64 : ℕ → ℕ → ℕ
saturating_mul64 a b = if ltb (a * b) u64_mod then a * b else u64_mod - 1

-- `num_words` (crates/interpreter/src/interpreter/shared_memory.rs)
unfoldable pub num_words : ℕ → ℕ
unfolding saturating_add64
num_words len = saturating_add64 len 31 / 32

-- `tri!` and `?`
infixl 5 ◌>>=◌
abbrev pub ◌>>=◌ : {A B : Type 0} → Option A → (A → Option B) → Option B
none >>= f = none
some a >>= f = f a

unfoldable pub cost_per_word : ℕ → ℕ → Option ℕ
unfolding num_words checked_mul
cost_per_word len multiple = checked_mul u64_mod multiple (num_words len)

unfoldable pub create2_cost : ℕ → Option ℕ
unfolding cost_per_word checked_add
create2_cost len = cost_per_word len keccak256word >>= checked_add u64_mod create

-- The four 64-bit limbs of a word, the highest first.
abbrev pub limbs : U256 → List ℕ
limbs v = v / 2 ^ 192 % u64_mod ∷ v / 2 ^ 128 % u64_mod ∷ v / 2 ^ 64 % u64_mod ∷ v % u64_mod ∷ []

-- The binary digits of a number below `2 ^ k`: 64 less `u64::leading_zeros` at `k` = 64.
unfoldable pub digits : ℕ → ℕ → ℕ
digits zero x = 0
digits (suc k) x = if x == 0 then 0 else suc (digits k (x / 2))

unfoldable pub leading_zeros : ℕ → ℕ
unfolding digits
leading_zeros x = 64 - digits 64 x

-- The loop of `log2floor` over the limbs that are left.
unfoldable pub log2floor_loop : List ℕ → ℕ → ℕ
unfolding leading_zeros
log2floor_loop [] l = l
log2floor_loop (limb ∷ limbs) l =
    let next = log2floor_loop limbs (l - 64) in
    let l' = l - leading_zeros limb in if limb == 0 then next else if l' == 0 then l' else l' - 1

unfoldable pub log2floor : U256 → ℕ
unfolding log2floor_loop
log2floor value = log2floor_loop (limbs value) 256

unfoldable pub exp_cost : SpecId → U256 → Option ℕ
unfolding log2floor enabled checked_add checked_mul
exp_cost spec_id power =
    let gas_byte = if enabled spec_id spurious_dragon then 50 else 10 in
    let gas =
      checked_mul u256_mod gas_byte (log2floor power / 8 + 1) >>= checked_add u256_mod exp in
    if power == 0 then some exp else gas >>= λ g. if ltb g u64_mod then some g else none

unfoldable pub verylowcopy_cost : ℕ → Option ℕ
unfolding cost_per_word checked_add
verylowcopy_cost len = cost_per_word len copy >>= checked_add u64_mod verylow

unfoldable pub warm_cold_cost : Bool → ℕ
warm_cold_cost is_cold = if is_cold then cold_account_access_cost else warm_storage_read_cost

unfoldable pub extcodecopy_cost : SpecId → ℕ → Bool → Option ℕ
unfolding cost_per_word checked_add warm_cold_cost enabled
extcodecopy_cost spec_id len is_cold =
    let base_gas =
      if enabled spec_id berlin
      then warm_cold_cost is_cold
      else if enabled spec_id tangerine
      then 700
      else 20 in
    cost_per_word len copy >>= checked_add u64_mod base_gas

unfoldable pub log_cost : ℕ → ℕ → Option ℕ
unfolding checked_add checked_mul
log_cost n len = checked_mul u64_mod logdata len >>= checked_add u64_mod log >>= λ g.
    checked_add u64_mod g (logtopic * n)

unfoldable pub keccak256_cost : ℕ → Option ℕ
unfolding cost_per_word checked_add
keccak256_cost len = cost_per_word len keccak256word >>= checked_add u64_mod keccak256

-- `none` is the panic "initcode cost overflow".
unfoldable pub initcode_cost : ℕ → Option ℕ
unfolding cost_per_word
initcode_cost len = cost_per_word len initcode_word_cost

unfoldable pub sload_cost : SpecId → Bool → ℕ
unfolding enabled
sload_cost spec_id is_cold =
    if enabled spec_id berlin
    then if is_cold then cold_sload_cost else warm_storage_read_cost
    else if enabled spec_id istanbul
    then instanbul_sload_gas
    else if enabled spec_id tangerine
    then 200
    else 50

unfoldable pub selfdestruct_cost : SpecId → SelfDestructResult → ℕ
unfolding enabled
selfdestruct_cost spec_id res =
    let should_charge_topup =
      if enabled spec_id spurious_dragon
      then res.had_value && not res.target_exists
      else not res.target_exists in
    let selfdestruct_gas_topup =
      if enabled spec_id tangerine && should_charge_topup then 25000 else 0 in
    let selfdestruct_gas = if enabled spec_id tangerine then 5000 else 0 in
    let gas = selfdestruct_gas + selfdestruct_gas_topup in
    if enabled spec_id berlin && res.is_cold then gas + cold_account_access_cost else gas

unfoldable pub call_cost : SpecId → Bool → Bool → Bool → ℕ
unfolding warm_cold_cost enabled
call_cost spec_id transfers_value is_cold new_account_accounting =
    let access =
      if enabled spec_id berlin
      then warm_cold_cost is_cold
      else if enabled spec_id tangerine
      then 700
      else 40 in
    let value = if transfers_value then callvalue else 0 in
    let new_account =
      if enabled spec_id spurious_dragon
      then if transfers_value then newaccount else 0
      else newaccount in
    access + value + (if new_account_accounting then new_account else 0)

unfoldable pub memory_gas : ℕ → ℕ
unfolding saturating_add64 saturating_mul64
memory_gas num_words =
    saturating_add64 (saturating_mul64 memory num_words)
      (saturating_mul64 num_words num_words / 512)

unfoldable pub memory_gas_for_len : ℕ → ℕ
unfolding memory_gas num_words
memory_gas_for_len len = memory_gas (num_words len)

-- `input.iter().filter(|v| **v == 0).count()`
unfoldable pub count_zeros : List ℕ → ℕ
count_zeros [] = 0
count_zeros (b ∷ bs) = (if b == 0 then 1 else 0) + count_zeros bs

unfoldable pub count_slots : List (Address × List U256) → ℕ
count_slots [] = 0
count_slots ((address, slots) ∷ rest) = length slots + count_slots rest

-- `none` is the panic of `initcode_cost`. The sums do not reach `2 ^ 64` for any input that fits
-- into memory.
unfoldable pub validate_initial_tx_gas :
    SpecId → List ℕ → Bool → List (Address × List U256) → Option ℕ
unfolding count_zeros count_slots initcode_cost enabled
validate_initial_tx_gas spec_id input is_create access_list =
    let zero_data_len = count_zeros input in
    let non_zero_data_len = length input - zero_data_len in
    let data_gas =
      zero_data_len * transaction_zero_data
      + non_zero_data_len * (if enabled spec_id istanbul then 16 else 68) in
    let list_gas =
      if enabled spec_id berlin
      then length access_list * access_list_address
        + count_slots access_list * access_list_storage_key
      else 0 in
    let base = if is_create then if enabled spec_id homestead then 53000 else 21000 else 21000 in
    let initcode =
      if enabled spec_id shanghai && is_create then initcode_cost (length input) else some 0 in
    initcode >>= λ c. some (data_gas + list_gas + base + c)
