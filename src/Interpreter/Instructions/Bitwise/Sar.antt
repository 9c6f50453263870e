-- ===== src/Interpreter/Instructions/Bitwise/Sar.antt =====
-- Proofs about the arithmetic shift.
use Prim.Native.Nat.{bit_or}
use native.Mathlib.Nat.{div-eq_of_lt-le, div-eq_of_lt, mod-eq_of_lt, mul-add-mod_self_right}
use sabvm.Prelude.{
  ℕ, zero, suc, ◌+◌, ◌-◌, ◌*◌, ◌/◌, ◌%◌, ◌^◌, ◌<◌, ◌≤◌, ◌≡◌, arith, u256_mod, ◌⊎◌, inl, inr, ap,
  ◌∙◌, sym, subst, true, some, ◌∷◌, length, leb, ltb-ge,
}
use sabvm.Prelude.Int.{ℤ, pos, negsuc}
use sabvm.Prelude.Bits.{pow_add, pow_pos, bit_or-fields}
use sabvm.Interpreter.SignedWords.Integers.{as_signed, as_word, signed_pos, signed_neg}
use sabvm.State.{U256, SpecId, enabled, constantinople}
use sabvm.Gas.{verylow, record_cost}
use sabvm.Interpreter.Stack.{Stack}
use sabvm.Interpreter.Machine.{Interpreter, as_usize_saturated}
use sabvm.Interpreter.Instructions.Bitwise.{arithmetic_shifted, sar}

-- Division that rounds towards minus infinity.
unfoldable pub floor_div : ℤ → ℕ → ℤ
floor_div (pos a) d = pos (a / d)
floor_div (negsuc a) d = negsuc (a / d)

below_quotient : (p q n : ℕ) → 0 < p → n < p * q → n / p < q
below_quotient p q n h k = grind arith

split_product : (p q c : ℕ) → c < q → p * q ≡ p * c + p + p * (q - 1 - c)
split_product p q c h =
    let e : q ≡ c + 1 + (q - 1 - c) = omega arith in ap (λ t. p * t) e ∙ grind arith

div_bounds : (p n : ℕ) → 0 < p → (p * (n / p) ≤ n) × (n < p * (n / p) + p)
div_bounds p n h = (grind arith, grind arith)

-- The complement of a number below `p * q`, divided by `p`.
complement_div : (p q n : ℕ) → 0 < p → n < p * q → (p * q - 1 - n) / p ≡ q - 1 - n / p
complement_div p q n h k =
    div-eq_of_lt-le p
      (omega (arith, split_product p q (n / p) (below_quotient p q n h k), div_bounds p n h))
      (omega (arith, split_product p q (n / p) (below_quotient p q n h k), div_bounds p n h))

expand : (a b : ℕ) → (suc a * suc b - 1) * suc b ≡ b * (suc a * suc b) + a * suc b
expand a b =
    let e : suc a * suc b - 1 ≡ a * b + a + b = grind arith in ap (λ t. t * suc b) e ∙ grind arith

small : (a b : ℕ) → a * suc b < suc a * suc b
small a b = grind arith

-- All ones, shifted up by the places that leave `p` of them.
mask_lem : (p q : ℕ) → 0 < p → 0 < q → (p * q - 1) * q % (p * q) ≡ (p - 1) * q
mask_lem zero q h k = absurd (omega arith)
mask_lem (suc a) zero h k = absurd (omega arith)
mask_lem (suc a) (suc b) h k =
    ap (λ t. t % (suc a * suc b)) (expand a b)
    ∙ mul-add-mod_self_right b (suc a * suc b) (a * suc b)
    ∙ mod-eq_of_lt (small a b)
    ∙ ap (λ t. t * suc b) (omega arith)

powers : (s : ℕ) → s ≤ 256 → 2 ^ s * 2 ^ (256 - s) ≡ u256_mod
powers s h =
    let e : s + (256 - s) ≡ 256 = omega arith in
    grind (arith, pow_add s (256 - s), ap (λ t. 2 ^ t) e)

pred_mul : (p q : ℕ) → 0 < p → (p - 1) * q + q ≡ p * q
pred_mul zero q h = elim h [ ]
pred_mul (suc a) q h = let e : suc a - 1 ≡ a = omega arith in rw e (grind arith)

complement : (p q w m : ℕ) → p * q ≡ m → 0 < p → w < m → w / p ≡ q - 1 - (m - w - 1) / p
complement p q w m e h k =
    let f : w ≡ p * q - 1 - (m - w - 1) = omega arith in
    ap (λ t. t / p) f ∙ complement_div p q (m - w - 1) h (omega arith)

combine : (p q w m : ℕ) → p * q ≡ m → 0 < p → w < m → w / p + (p - 1) * q ≡ m - 1 - (m - w - 1) / p
combine p q w m e h k = omega (
  arith,
  complement p q w m e h k,
  pred_mul p q h,
  below_quotient p q (m - w - 1) h (omega arith),
)

-- A negative word, shifted by fewer places than it has bits.
negative_shifted :
    (s w : ℕ)
    → s < 256
    → 2 ^ 255 ≤ w
    → w < u256_mod
    → bit_or (w / 2 ^ s) ((u256_mod - 1) * 2 ^ (256 - s) % u256_mod)
      ≡ u256_mod - 1 - (u256_mod - w - 1) / 2 ^ s
negative_shifted s w h k l =
    let e : 2 ^ s * 2 ^ (256 - s) ≡ u256_mod = powers s (omega arith) in
    let mask : (u256_mod - 1) * 2 ^ (256 - s) % u256_mod ≡ (2 ^ s - 1) * 2 ^ (256 - s) =
      subst (λ t. (t - 1) * 2 ^ (256 - s) % t ≡ (2 ^ s - 1) * 2 ^ (256 - s)) e
        (mask_lem (2 ^ s) (2 ^ (256 - s)) (pow_pos s) (pow_pos (256 - s))) in
    ap (λ t. bit_or (w / 2 ^ s) t) mask
    ∙ bit_or-fields (256 - s) (w / 2 ^ s) (2 ^ s - 1)
        (below_quotient (2 ^ s) (2 ^ (256 - s)) w (pow_pos s) (omega (arith, e)))
    ∙ combine (2 ^ s) (2 ^ (256 - s)) w u256_mod e (pow_pos s) l

large_power : (s : ℕ) → 256 ≤ s → u256_mod ≤ 2 ^ s
large_power s h =
    let e : s ≡ (s - 256) + 256 = omega arith in
    grind (arith, ap (λ t. 2 ^ t) e, pow_add (s - 256) 256, pow_pos (s - 256))

-- Below the modulus, a shift by all places leaves nothing.
large_shift : (s a : ℕ) → 256 ≤ s → a < u256_mod → a / 2 ^ s ≡ 0
large_shift s a h k = div-eq_of_lt (omega (arith, large_power s h))

shifted_pos : (s w : ℕ) → w < 2 ^ 255 → arithmetic_shifted s w ≡ w / 2 ^ s
unfolding arithmetic_shifted
shifted_pos s w h = ground (arith, large_shift s w)

shifted_neg :
    (s w : ℕ)
    → 2 ^ 255 ≤ w
    → w < u256_mod
    → arithmetic_shifted s w ≡ u256_mod - 1 - (u256_mod - w - 1) / 2 ^ s
unfolding arithmetic_shifted
shifted_neg s w h k = ground (arith, negative_shifted s w, large_shift s (u256_mod - w - 1))

sign-cases : (w : ℕ) → (w < 2 ^ 255) ⊎ (2 ^ 255 ≤ w)
sign-cases w = ground arith

word_negsuc : (n : ℕ) → n < u256_mod → as_word (negsuc n) ≡ u256_mod - 1 - n
unfolding as_word
word_negsuc n h = ground arith

word_pos : (n : ℕ) → n < u256_mod → as_word (pos n) ≡ n
unfolding as_word
word_pos n h = ground arith

quotient_le : (n s : ℕ) → n / 2 ^ s ≤ n
quotient_le n s = grind (arith, pow_pos s)

-- The shift is a division that rounds down, for every number of places.
pub arithmetic_shifted-floor_div :
    (shift w : ℕ)
    → w < 2 ^ 256
    → arithmetic_shifted shift w ≡ as_word (floor_div (as_signed w) (2 ^ shift))
unfolding floor_div
arithmetic_shifted-floor_div s w h = elim (sign-cases w) [
  | inl p ↦
      rw (signed_pos w p)
        (shifted_pos s w p ∙ sym (word_pos (w / 2 ^ s) (omega (arith, quotient_le w s))))
  | inr n ↦ rw (signed_neg w n h) (
      shifted_neg s w n h
      ∙ sym (
          word_negsuc ((u256_mod - w - 1) / 2 ^ s)
            (omega (arith, quotient_le (u256_mod - w - 1) s))))
]

-- A number of places that saturates is as good as one that does not: no bit is left.
saturated_shift :
    (shift w : ℕ)
    → shift < u256_mod
    → arithmetic_shifted (as_usize_saturated shift) w ≡ arithmetic_shifted shift w
unfolding as_usize_saturated arithmetic_shifted
saturated_shift shift w h = ground arith

-- `sar` with enough gas, where it is activated, takes the number of places from the top of the
-- stack and replaces the word under it by the word of its integer divided by that power of two,
-- rounded towards minus infinity, for every number of places; it pays its price, and all else in
-- the machine stays. The number of places and the word are 256-bit words.
pub sar-floor_div :
    (spec : SpecId) (i : Interpreter) (shift w : U256) (s : Stack)
    → enabled spec constantinople ≡ true
    → verylow ≤ i.gas.remaining
    → i.stack ≡ shift ∷ w ∷ s
    → shift < 2 ^ 256
    → w < 2 ^ 256
    → sar spec i
      ≡ some (record i {
        gas = record (i.gas) { remaining = i.gas.remaining - verylow };
        stack = as_word (floor_div (as_signed w) (2 ^ shift)) ∷ s;
      })
unfolding sar
sar-floor_div spec i shift w s active enough e h k =
    rw
      (
        active,
        enough_gas,
        e,
        ltb-ge (suc (suc (length s))) 2 (omega arith),
        saturated_shift shift w h,
        arithmetic_shifted-floor_div shift w k,
      )
      paid
  where
    enough_gas : leb verylow i.gas.remaining ≡ true
    enough_gas = ground (arith, enough)

    paid :
        some (record i {
          gas = (record_cost verylow i.gas).0;
          stack = as_word (floor_div (as_signed w) (2 ^ shift)) ∷ s;
        })
        ≡ some (record i {
          gas = record (i.gas) { remaining = i.gas.remaining - verylow };
          stack = as_word (floor_div (as_signed w) (2 ^ shift)) ∷ s;
        })
    paid = unfold record_cost in rw enough_gas
