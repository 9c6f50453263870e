-- ===== src/Prelude/Bytes.antt =====
-- Proofs about big-endian bytes.
use Prim.Native.Nat.{ℕ, zero, suc, ◌+◌, ◌*◌, ◌/◌, ◌%◌, ◌^◌, ◌<◌}
use mathlib.Core.Path.{◌≡◌, refl, ap, ◌∙◌}
use mathlib.Core.List.{List, [], ◌∷◌, ◌++◌}
use native.Mathlib.Omega.{arith}
use sabvm.Prelude.Lists.{length, length-append}
use sabvm.Prelude.Words.{be_bytes, from_be_bytes, from_be_bytes_acc}

pub length-be_bytes : (n x : ℕ) → length (be_bytes n x) ≡ n
unfolding be_bytes
length-be_bytes zero x = refl
length-be_bytes (suc n) x =
    length-append (be_bytes n (x / 256)) (x % 256 ∷ []) ∙ omega (arith, length-be_bytes n (x / 256))

pub from_be_bytes_acc-append :
    (acc : ℕ) (bs cs : List ℕ)
    → from_be_bytes_acc acc (bs ++ cs) ≡ from_be_bytes_acc (from_be_bytes_acc acc bs) cs
unfolding from_be_bytes_acc
from_be_bytes_acc-append acc [] cs = refl
from_be_bytes_acc-append acc (b ∷ bs) cs = from_be_bytes_acc-append (acc * 256 + b) bs cs

pub from_be_bytes_acc-be_bytes : (n x : ℕ) → x < 256 ^ n → from_be_bytes_acc 0 (be_bytes n x) ≡ x
unfolding from_be_bytes_acc be_bytes
from_be_bytes_acc-be_bytes zero x h = omega (arith, h)
from_be_bytes_acc-be_bytes (suc n) x h =
    from_be_bytes_acc-append 0 (be_bytes n (x / 256)) (x % 256 ∷ [])
    ∙ ap (λ y. y * 256 + x % 256) (from_be_bytes_acc-be_bytes n (x / 256) (smaller n x h))
    ∙ omega arith
  where
    smaller : (n x : ℕ) → x < 256 ^ suc n → x / 256 < 256 ^ n
    smaller n x h = grind (arith, h)

next_power : (acc b n : ℕ) → acc * 256 ^ suc n + (0 + b) * 256 ^ n ≡ (acc * 256 + b) * 256 ^ n
next_power acc b n =
    let e : 256 ^ suc n ≡ 256 ^ n * 256 = omega arith in grind (arith, ap (λ t. acc * t) e)

from_be_bytes_acc-split :
    (acc : ℕ) (bs : List ℕ)
    → from_be_bytes_acc acc bs ≡ acc * 256 ^ length bs + from_be_bytes_acc 0 bs
unfolding from_be_bytes_acc
from_be_bytes_acc-split acc [] = omega arith
from_be_bytes_acc-split acc (b ∷ bs) = omega (
  arith,
  from_be_bytes_acc-split (acc * 256 + b) bs,
  from_be_bytes_acc-split (0 + b) bs,
  next_power acc b (length bs),
)

-- The number of a longer byte list, by its parts.
pub from_be_bytes-append :
    (bs cs : List ℕ)
    → from_be_bytes (bs ++ cs) ≡ from_be_bytes bs * 256 ^ length cs + from_be_bytes cs
unfolding from_be_bytes
from_be_bytes-append bs cs =
    from_be_bytes_acc-append 0 bs cs ∙ from_be_bytes_acc-split (from_be_bytes_acc 0 bs) cs

pub from_be_bytes-be_bytes : (n x : ℕ) → x < 256 ^ n → from_be_bytes (be_bytes n x) ≡ x
unfolding from_be_bytes
from_be_bytes-be_bytes n x h = from_be_bytes_acc-be_bytes n x h
