-- ===== src/Gas/Sstore.antt =====
-- The cost and the refund of `SSTORE` (crates/interpreter/src/gas/calc.rs).
use sabvm.Prelude.{
  ℕ, ◌+◌, ◌-◌, Bool, false, not, ◌&&◌, Option, none, some, leb, ◌==◌, if◌then◌else◌,
}
use sabvm.Prelude.Int.{ℤ, pos, ◌+ℤ◌, ◌-ℤ◌}
use sabvm.State.{U256, SpecId, enabled, istanbul, berlin, london}
use sabvm.Gas.Constants.{
  instanbul_sload_gas, sstore_set, sstore_reset, refund_sstore_clears, access_list_storage_key,
  cold_sload_cost, warm_storage_read_cost, warm_sstore_reset, call_stipend,
}
use sabvm.Gas.Calc.{sload_cost}

-- `sstore_clears_schedule`
unfoldable pub sstore_clears_schedule : SpecId → ℕ
unfolding enabled
sstore_clears_schedule spec_id =
    if enabled spec_id london
    then sstore_reset - cold_sload_cost + access_list_storage_key
    else refund_sstore_clears

-- The refund for a slot that gets its original value back.
unfoldable pub restore_refund : SpecId → U256 → ℕ
unfolding enabled sload_cost
restore_refund spec_id original =
    let gas_sstore_reset =
      if enabled spec_id berlin then sstore_reset - cold_sload_cost else sstore_reset in
    let gas_sload =
      if enabled spec_id berlin then warm_storage_read_cost else sload_cost spec_id false in
    if original == 0 then sstore_set - gas_sload else gas_sstore_reset - gas_sload

unfoldable pub sstore_refund : SpecId → U256 → U256 → U256 → ℤ
unfolding sstore_clears_schedule restore_refund enabled
sstore_refund spec_id original current new =
    let schedule = sstore_clears_schedule spec_id in
    let cleared =
      if not (original == 0)
      then if current == 0 then pos 0 -ℤ pos schedule else if new == 0 then pos schedule else pos 0
      else pos 0 in
    let restored = if original == new then pos (restore_refund spec_id original) else pos 0 in
    if enabled spec_id istanbul
    then if current == new
      then pos 0
      else if original == current && new == 0
      then pos schedule
      else cleared +ℤ restored
    else if not (current == 0) && new == 0
    then pos refund_sstore_clears
    else pos 0

unfoldable pub istanbul_sstore_cost : ℕ → ℕ → U256 → U256 → U256 → ℕ
istanbul_sstore_cost sload_gas sstore_reset_gas original current new =
    if new == current
    then sload_gas
    else if original == current && original == 0
    then sstore_set
    else if original == current
    then sstore_reset_gas
    else sload_gas

unfoldable pub frontier_sstore_cost : U256 → U256 → ℕ
frontier_sstore_cost current new =
    if current == 0 && not (new == 0) then sstore_set else sstore_reset

unfoldable pub sstore_cost : SpecId → U256 → U256 → U256 → ℕ → Bool → Option ℕ
unfolding istanbul_sstore_cost frontier_sstore_cost enabled
sstore_cost spec_id original current new gas is_cold =
    let berlin_cost =
      istanbul_sstore_cost warm_storage_read_cost warm_sstore_reset original current new in
    if enabled spec_id istanbul && leb gas call_stipend
    then none
    else if enabled spec_id berlin
    then some (if is_cold then berlin_cost + cold_sload_cost else berlin_cost)
    else if enabled spec_id istanbul
    then some (istanbul_sstore_cost instanbul_sload_gas sstore_reset original current new)
    else some (frontier_sstore_cost current new)
