-- ===== src/Tests/Gas.antt =====
-- The gas counter and the prices at concrete inputs.
use sabvm.Prelude.{
  ℕ, suc, ◌^◌, ◌<◌, ◌+◌, ◌*◌, ◌/◌, ◌≤◌, true, false, [], ◌∷◌, some, ◌≡◌, ◌≢◌, refl, arith, leb,
  if◌then◌else◌,
}
use sabvm.Prelude.Int.{ℤ, pos, negsuc, ◌+ℤ◌, ◌≤ℤ◌}
use sabvm.State.{cancun}
use sabvm.Gas.{
  Gas, record_cost, spent, set_final_refund, memory_gas, sstore_cost, sstore_refund, sload_cost,
  log2floor,
}
use sabvm.Gas.Counting.{IsValid, quotient, record_cost-spent, set_final_refund_neg}
use sabvm.Gas.Logarithm.{log2floor-log}
use sabvm.Gas.Prices.{memory_gas_exact}
use sabvm.Gas.Refunds.{
  cleared_credit, total_refund, last_value, total_refund-ge-credit, sstore_cost_restore,
}

-- 40 of 100 are spent.
abbrev counter : ℤ → Gas
counter refunded = record { limit = 100; remaining = 60; refunded = refunded }

counter-IsValid : (refunded : ℤ) → IsValid (counter refunded)
counter-IsValid refunded = record { within = omega arith; fits = omega arith }

record_cost-spent_example :
    let (gas', success) = record_cost 25 (counter (pos 0)) in
    (success ≡ leb 25 60)
    × (spent gas' ≡ spent (counter (pos 0)) + (if success then 25 else 0))
    × (gas'.limit ≡ 100)
    × (gas'.refunded ≡ pos 0)
    × IsValid gas'
record_cost-spent_example = record_cost-spent 25 (counter (pos 0)) (counter-IsValid (pos 0))

set_final_refund_neg_example :
    (set_final_refund true (counter (negsuc 4))).refunded
    ≡ pos (spent (counter (negsuc 4)) / quotient true)
set_final_refund_neg_example =
    set_final_refund_neg true (counter (negsuc 4)) 4 (counter-IsValid (negsuc 4)) (omega arith) refl

memory_gas_exact_example : memory_gas 3000 ≡ 3 * 3000 + 3000 * 3000 / 512
memory_gas_exact_example = memory_gas_exact 3000 (omega arith)

total_refund-ge-credit_example :
    pos (cleared_credit cancun 5 (last_value 5 (7 ∷ 5 ∷ 0 ∷ [])))
    ≤ℤ total_refund cancun 5 5 (7 ∷ 5 ∷ 0 ∷ [])
unfolding sabvm.State.enabled
total_refund-ge-credit_example = total_refund-ge-credit cancun 5 (7 ∷ 5 ∷ 0 ∷ []) refl

seven_ne_five : ◌≢◌ {A = ℕ} 7 5
seven_ne_five e = ground (arith, e)

first_store : sstore_cost cancun 5 5 7 10000 false ≡ some 2900
unfolding sstore_cost
first_store = refl

second_store : sstore_cost cancun 5 7 5 10000 false ≡ some 100
unfolding sstore_cost
second_store = refl

sstore_cost_restore_example :
    pos (2900 + 100)
    ≡ sstore_refund cancun 5 5 7 +ℤ sstore_refund cancun 5 7 5 +ℤ pos (2 * sload_cost cancun false)
unfolding sabvm.State.enabled
sstore_cost_restore_example =
    sstore_cost_restore cancun 5 7 10000 10000 refl seven_ne_five first_store second_store

log2floor-log_example :
    (2 ^ log2floor (2 ^ 200 + 5) ≤ 2 ^ 200 + 5) × (2 ^ 200 + 5 < 2 ^ suc (log2floor (2 ^ 200 + 5)))
log2floor-log_example = log2floor-log (2 ^ 200 + 5) (omega arith) (omega arith)
