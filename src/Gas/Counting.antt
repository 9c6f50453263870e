-- ===== src/Gas/Counting.antt =====
-- What the methods of the gas counter do to what is spent.
use sabvm.Prelude.{
  ℕ, ◌+◌, ◌-◌, ◌/◌, ◌^◌, ◌<◌, ◌≤◌, Bool, ◌≡◌, arith, leb, if◌then◌else◌, min, u64_mod,
}
use sabvm.Prelude.Int.{pos, negsuc}
use sabvm.Gas.Counter.{Gas, as_u64, as_i64, spent, erase_cost, record_cost, set_final_refund}

-- No more remains than the limit, and the limit is a `u64`.
pub record IsValid (gas : Gas) : Type 0 where
  pub within : gas.remaining ≤ gas.limit
  pub fits : gas.limit < u64_mod

-- On a valid counter a cost is recorded exactly if it is at most what remains: then what is spent
-- grows by the cost, and otherwise nothing changes. The limit, the refunds and the validity stay.
pub record_cost-spent :
    (cost : ℕ) (gas : Gas)
    → IsValid gas
    → let (gas', success) = record_cost cost gas in
      (success ≡ leb cost gas.remaining)
      × (spent gas' ≡ spent gas + (if success then cost else 0))
      × (gas'.limit ≡ gas.limit)
      × (gas'.refunded ≡ gas.refunded)
      × IsValid gas'
unfolding record_cost spent
record_cost-spent cost gas v = ground arith

-- On a valid counter, gas that a subcall returns, out of what was spent, is no longer spent, and
-- the counter stays valid.
pub spent-erase_cost :
    (returned : ℕ) (gas : Gas)
    → IsValid gas
    → returned ≤ spent gas
    → (spent (erase_cost returned gas) ≡ spent gas - returned) × IsValid (erase_cost returned gas)
unfolding erase_cost spent
spent-erase_cost returned gas v h = (omega arith, omega arith)

abbrev pub quotient : Bool → ℕ
quotient is_london = if is_london then 5 else 2

-- The final refund of a valid counter whose refunds are a nonnegative `i64` is the smaller of the
-- refunds and the fork's share of what was spent.
pub set_final_refund_nonneg :
    (is_london : Bool) (gas : Gas) (refund : ℕ)
    → IsValid gas
    → refund < 2 ^ 63
    → gas.refunded ≡ pos refund
    → (set_final_refund is_london gas).refunded ≡ pos (min refund (spent gas / quotient is_london))
unfolding set_final_refund as_u64 as_i64 spent
set_final_refund_nonneg is_london gas refund v h e = rw e (ground arith)

-- The final refund of a valid counter whose refunds are a negative `i64` is the whole of the
-- fork's share of what was spent.
pub set_final_refund_neg :
    (is_london : Bool) (gas : Gas) (n : ℕ)
    → IsValid gas
    → n < 2 ^ 63
    → gas.refunded ≡ negsuc n
    → (set_final_refund is_london gas).refunded ≡ pos (spent gas / quotient is_london)
unfolding set_final_refund as_u64 as_i64 spent
set_final_refund_neg is_london gas n v h e = rw e (ground arith)
