-- ===== src/Prelude/Words.antt =====
-- Arithmetic on machine words: `u64`, `usize` (64 bits) and `U256`, as native numbers.
use Prim.Native.Nat.{ℕ, zero, suc, ◌+◌, ◌-◌, ◌*◌, ◌/◌, ◌%◌, ◌^◌, ◌≤◌, ◌<◌}
use mathlib.Core.Path.{◌≡◌}
use mathlib.Core.List.{List, [], ◌∷◌, ◌++◌}
use mathlib.Core.Option.{Option, none, some}
use native.Mathlib.Omega.{arith}
use sabvm.Prelude.Tests.{ltb, leb, if◌then◌else◌}

abbrev pub u64_mod : ℕ
u64_mod = 2 ^ 64

abbrev pub u256_mod : ℕ
u256_mod = 2 ^ 256

-- `U256::wrapping_add`, `wrapping_sub`
unfoldable pub wrapping_add : ℕ → ℕ → ℕ
wrapping_add a b = (a + b) % u256_mod

unfoldable pub wrapping_sub : ℕ → ℕ → ℕ
wrapping_sub a b = (a + u256_mod - b) % u256_mod

-- `U256::saturating_add`, `saturating_sub`
unfoldable pub saturating_add : ℕ → ℕ → ℕ
saturating_add a b = if ltb (a + b) u256_mod then a + b else u256_mod - 1

unfoldable pub saturating_sub : ℕ → ℕ → ℕ
saturating_sub a b = a - b

-- `checked_add`, `checked_mul` at a width with modulus `m`, and `checked_sub`.
unfoldable pub checked_add : ℕ → ℕ → ℕ → Option ℕ
checked_add m a b = if ltb (a + b) m then some (a + b) else none

unfoldable pub checked_mul : ℕ → ℕ → ℕ → Option ℕ
checked_mul m a b = if ltb (a * b) m then some (a * b) else none

unfoldable pub checked_sub : ℕ → ℕ → Option ℕ
checked_sub a b = if leb b a then some (a - b) else none

pub wrapping_add-lt : (a b : ℕ) → wrapping_add a b < u256_mod
unfolding wrapping_add
wrapping_add-lt a b = omega arith

pub wrapping_sub-lt : (a b : ℕ) → wrapping_sub a b < u256_mod
unfolding wrapping_sub
wrapping_sub-lt a b = omega arith

pub wrapping_add-sub :
    (a b : ℕ) → a < u256_mod → b < u256_mod → wrapping_add (wrapping_sub a b) b ≡ a
unfolding wrapping_add wrapping_sub
wrapping_add-sub a b ha hb = omega arith

pub wrapping_sub-add :
    (a b : ℕ) → a < u256_mod → b < u256_mod → wrapping_sub (wrapping_add a b) b ≡ a
unfolding wrapping_add wrapping_sub
wrapping_sub-add a b ha hb = omega arith

pub wrapping_add_exact : (a b : ℕ) → a + b < u256_mod → wrapping_add a b ≡ a + b
unfolding wrapping_add
wrapping_add_exact a b h = omega arith

pub wrapping_sub_exact : (a b : ℕ) → a < u256_mod → b ≤ a → wrapping_sub a b ≡ a - b
unfolding wrapping_sub
wrapping_sub_exact a b h k = omega arith

-- The `n` big-endian bytes of a number, and the number of a big-endian byte list.
unfoldable pub be_bytes : ℕ → ℕ → List ℕ
be_bytes zero x = []
be_bytes (suc n) x = be_bytes n (x / 256) ++ (x % 256 ∷ [])

unfoldable pub from_be_bytes_acc : ℕ → List ℕ → ℕ
from_be_bytes_acc acc [] = acc
from_be_bytes_acc acc (b ∷ bs) = from_be_bytes_acc (acc * 256 + b) bs

unfoldable pub from_be_bytes : List ℕ → ℕ
unfolding from_be_bytes_acc
from_be_bytes bs = from_be_bytes_acc 0 bs
