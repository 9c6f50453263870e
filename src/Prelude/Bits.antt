-- ===== src/Prelude/Bits.antt =====
-- Powers of two, and `bit_or` of fields that do not overlap.
use Prim.Native.Nat.{
  ℕ, zero, suc, ◌+◌, ◌*◌, ◌/◌, ◌%◌, ◌^◌, ◌≤◌, ◌<◌, max, bit_or, digits, bit_or-bitwise,
}
use mathlib.Core.Path.{◌≡◌, refl, ap, sym, ◌∙◌}
use native.Mathlib.Omega.{arith}

suc_add : (a b : ℕ) → suc a + b ≡ suc (a + b)
suc_add a b = omega arith

pub pow_suc : (n : ℕ) → 2 ^ suc n ≡ 2 ^ n * 2
pow_suc n = omega arith

pub pow_add : (a b : ℕ) → 2 ^ (a + b) ≡ 2 ^ b * 2 ^ a
pow_add zero b = grind arith
pow_add (suc a) b =
    ap (λ t. 2 ^ t) (suc_add a b)
    ∙ pow_suc (a + b)
    ∙ ap (λ t. t * 2) (pow_add a b)
    ∙ grind (arith, pow_suc a)

pub pow_pos : (n : ℕ) → 0 < 2 ^ n
pow_pos zero = omega arith
pow_pos (suc n) = omega (arith, pow_suc n, pow_pos n)

-- The recursion that `bit_or` stands for needs no more fuel than its first number.
abbrev or_digits : ℕ → ℕ → ℕ → ℕ
or_digits n a b = digits (λ b. b) max n a b

or_digits_zero : (n b : ℕ) → or_digits n 0 b ≡ b
or_digits_zero zero b = refl
or_digits_zero (suc n) b = refl

or_digits_fuel : (n m a b : ℕ) → a ≤ n → a ≤ m → or_digits n a b ≡ or_digits m a b
or_digits_fuel n m zero b p q = or_digits_zero n b ∙ sym (or_digits_zero m b)
or_digits_fuel zero m (suc a) b p q = absurd (omega arith)
or_digits_fuel (suc n) zero (suc a) b p q = absurd (omega arith)
or_digits_fuel (suc n) (suc m) (suc a) b p q =
    ap (λ t. t * 2 + max (suc a % 2) (b % 2))
      (or_digits_fuel n m (suc a / 2) (b / 2) (omega arith) (omega arith))

bit_or_zero : (b : ℕ) → bit_or 0 b ≡ b
bit_or_zero b = bit_or-bitwise 0 b

bit_or_step : (a b : ℕ) → bit_or a b ≡ bit_or (a / 2) (b / 2) * 2 + max (a % 2) (b % 2)
bit_or_step zero b = omega (arith, bit_or_zero b, bit_or_zero (b / 2))
bit_or_step (suc a) b = omega (
  arith,
  bit_or-bitwise (suc a) b,
  bit_or-bitwise (suc a / 2) (b / 2),
  or_digits_fuel a (suc a / 2) (suc a / 2) (b / 2) (omega arith) (omega arith),
)

shifted_twice : (q k : ℕ) → q * 2 ^ suc k ≡ 2 * (q * 2 ^ k)
shifted_twice q k = omega (arith, ap (λ t. q * t) (pow_suc k))

half_shifted : (q k : ℕ) → q * 2 ^ suc k / 2 ≡ q * 2 ^ k
half_shifted q k = omega (arith, shifted_twice q k)

-- A low field of `k` bits and a high field above it: nothing is carried.
pub bit_or-fields : (k r q : ℕ) → r < 2 ^ k → bit_or r (q * 2 ^ k) ≡ r + q * 2 ^ k
bit_or-fields zero r q h =
    let e : r ≡ 0 = omega arith in rw e (omega (arith, bit_or_zero (q * 2 ^ zero)))
bit_or-fields (suc k) r q h = omega (
  arith,
  bit_or_step r (q * 2 ^ suc k),
  ap (λ t. bit_or (r / 2) t) (half_shifted q k)
      ∙ bit_or-fields k (r / 2) q (omega (arith, pow_suc k)),
  shifted_twice q k,
)
