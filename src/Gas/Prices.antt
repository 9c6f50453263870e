-- ===== src/Gas/Prices.antt =====
-- Proofs about the price of memory.
use sabvm.Prelude.{ℕ, ◌+◌, ◌*◌, ◌/◌, ◌^◌, ◌<◌, ◌≤◌, ◌≡◌, arith}
use sabvm.Gas.Calc.{saturating_add64, saturating_mul64, memory_gas}

saturating_add64_mono : (a b c d : ℕ) → a ≤ c → b ≤ d → saturating_add64 a b ≤ saturating_add64 c d
unfolding saturating_add64
saturating_add64_mono a b c d h k = ground arith

saturating_mul64_mono : (a b c d : ℕ) → a ≤ c → b ≤ d → saturating_mul64 a b ≤ saturating_mul64 c d
unfolding saturating_mul64
saturating_mul64_mono a b c d h k = grind arith

-- More words of memory cost no less.
pub memory_gas_mono : (n m : ℕ) → n ≤ m → memory_gas n ≤ memory_gas m
unfolding memory_gas
memory_gas_mono n m h =
    saturating_add64_mono _ _ _ _ (saturating_mul64_mono 3 n 3 m (omega arith) h)
      (omega (arith, saturating_mul64_mono n n m m h h))

-- Below `2 ^ 32` words the price of memory is `3 * n + n * n / 512`, with no saturation.
pub memory_gas_exact : (n : ℕ) → n < 2 ^ 32 → memory_gas n ≡ 3 * n + n * n / 512
unfolding memory_gas saturating_add64 saturating_mul64
memory_gas_exact n h = grind arith
