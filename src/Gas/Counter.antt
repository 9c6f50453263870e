-- ===== src/Gas/Counter.antt =====
-- `struct Gas` and its methods. A `u64` is a native number and keeps its wrap-around; an `i64` is
-- an integer that wraps to its 64-bit pattern.
use sabvm.Prelude.{
  ℕ, ◌+◌, ◌-◌, ◌/◌, ◌%◌, ◌^◌, Bool, true, false, ltb, leb, if◌then◌else◌, min, u64_mod,
}
use sabvm.Prelude.Int.{ℤ, pos, negsuc, pos_part, neg_part}

pub record Gas : Type 0 where
  pub limit : ℕ
  pub remaining : ℕ
  pub refunded : ℤ

-- `x as u64` and `x as i64`
unfoldable pub as_u64 : ℤ → ℕ
as_u64 z = (pos_part z + u64_mod - neg_part z) % u64_mod

unfoldable pub as_i64 : ℕ → ℤ
as_i64 w = if ltb w (2 ^ 63) then pos w else negsuc (u64_mod - w - 1)

unfoldable pub add_i64 : ℤ → ℤ → ℤ
unfolding as_u64 as_i64
add_i64 a b = as_i64 ((as_u64 a + as_u64 b) % u64_mod)

unfoldable pub new : ℕ → Gas
new limit = record { limit = limit; remaining = limit; refunded = pos 0 }

unfoldable pub new_spent : ℕ → Gas
new_spent limit = record { limit = limit; remaining = 0; refunded = pos 0 }

unfoldable pub spent : Gas → ℕ
spent gas = (gas.limit + u64_mod - gas.remaining) % u64_mod

unfoldable pub erase_cost : ℕ → Gas → Gas
erase_cost returned gas = record gas { remaining = (gas.remaining + returned) % u64_mod }

unfoldable pub spend_all : Gas → Gas
spend_all gas = record gas { remaining = 0 }

unfoldable pub record_refund : ℤ → Gas → Gas
unfolding add_i64
record_refund refund gas = record gas { refunded = add_i64 gas.refunded refund }

unfoldable pub set_final_refund : Bool → Gas → Gas
unfolding spent as_u64 as_i64
set_final_refund is_london gas =
    let max_refund_quotient = if is_london then 5 else 2 in
    record gas { refunded = as_i64 (min (as_u64 gas.refunded) (spent gas / max_refund_quotient)) }

unfoldable pub set_refund : ℤ → Gas → Gas
set_refund refund gas = record gas { refunded = refund }

-- `overflowing_sub` overflows exactly where the cost is more than what remains.
unfoldable pub record_cost : ℕ → Gas → Gas × Bool
record_cost cost gas =
    if leb cost gas.remaining
    then (record gas { remaining = gas.remaining - cost }, true)
    else (gas, false)
