-- ===== src/Interpreter/SignedWords/Division.antt =====
-- Proofs that compare `i256_div` with the division of integers.
use sabvm.Prelude.{
  ℕ, suc, ◌-◌, ◌/◌, ◌^◌, ◌<◌, ◌≤◌, ◌≡◌, inl, inr, refl, ◌==◌, ==-cases, if◌then◌else◌, arith,
  u256_mod,
}
use sabvm.Prelude.Int.{ℤ, pos, negsuc}
use sabvm.Interpreter.SignedWords.{i256_div}
use sabvm.Interpreter.SignedWords.Integers.{
  as_signed, as_word, neg_ℕ, compl_minus, compl_plus, compl_zero, word-cases, signed_pos,
  signed_neg, suc_pred, word_neg,
}

-- Division that rounds towards zero.
unfoldable pub quot : ℤ → ℤ → ℤ
unfolding neg_ℕ
quot (pos a) (pos b) = pos (a / b)
quot (pos a) (negsuc b) = neg_ℕ (a / suc b)
quot (negsuc a) (pos b) = neg_ℕ (suc a / b)
quot (negsuc a) (negsuc b) = pos (suc a / suc b)

div_le : (x y : ℕ) → x / y ≤ x
div_le x y = grind arith

div-one : (x : ℕ) → x / 1 ≡ x
div-one x = omega arith

-- By a divisor from two on, what is not more than half a word is less than that.
half_div : (x y : ℕ) → x ≤ 2 ^ 255 → 2 ≤ y → x / y < 2 ^ 255
half_div x y h k = grind arith

div_plus_plus :
    (a b : ℕ)
    → 0 < a
    → a < 2 ^ 255
    → 0 < b
    → b < 2 ^ 255
    → i256_div a b ≡ as_word (quot (as_signed a) (as_signed b))
unfolding i256_div as_word quot
div_plus_plus a b ha ka hb kb =
    rw (compl_plus a ha ka, compl_plus b hb kb, signed_pos a ka, signed_pos b kb)
      (ground (arith, div_le a b))

div_plus_minus :
    (a b : ℕ)
    → 0 < a
    → a < 2 ^ 255
    → 2 ^ 255 ≤ b
    → b < u256_mod
    → i256_div a b ≡ as_word (quot (as_signed a) (as_signed b))
unfolding i256_div quot
div_plus_minus a b ha ka hb kb =
    rw (compl_plus a ha ka, compl_minus b hb kb, signed_pos a ka, signed_neg b hb kb, suc_pred b kb)
      (ground (arith, div_le a (u256_mod - b), word_neg (a / (u256_mod - b))))

div_minus_plus :
    (a b : ℕ)
    → 2 ^ 255 ≤ a
    → a < u256_mod
    → 0 < b
    → b < 2 ^ 255
    → i256_div a b ≡ as_word (quot (as_signed a) (as_signed b))
unfolding i256_div quot
div_minus_plus a b ha ka hb kb =
    rw (compl_minus a ha ka, compl_plus b hb kb, signed_neg a ha ka, signed_pos b kb, suc_pred a ka)
      (ground (
        arith,
        div_le (u256_mod - a) b,
        half_div (u256_mod - a) b,
        word_neg ((u256_mod - a) / b),
        div-one (u256_mod - a),
      ))

div_minus_minus :
    (a b : ℕ)
    → 2 ^ 255 ≤ a
    → a < u256_mod
    → 2 ^ 255 ≤ b
    → b < u256_mod
    → i256_div a b ≡ as_word (quot (as_signed a) (as_signed b))
unfolding i256_div quot as_word
div_minus_minus a b ha ka hb kb =
    rw
      (
        compl_minus a ha ka,
        compl_minus b hb kb,
        signed_neg a ha ka,
        signed_neg b hb kb,
        suc_pred a ka,
        suc_pred b kb,
      )
      (ground (
        arith,
        div_le (u256_mod - a) (u256_mod - b),
        half_div (u256_mod - a) (u256_mod - b),
        div-one (u256_mod - a),
      ))

div_zero : (a : ℕ) → i256_div a 0 ≡ 0
unfolding i256_div
div_zero a = rw compl_zero refl

zero_div : (b : ℕ) → 0 / b ≡ 0
zero_div b = omega (arith, div_le 0 b)

-- The dividend zero, for a divisor of either sign.
div_of_zero :
    (b : ℕ) → 0 < b → b < u256_mod → i256_div 0 b ≡ as_word (quot (as_signed 0) (as_signed b))
unfolding i256_div quot as_word
div_of_zero b hb kb = elim (word-cases b) [
  | inl z ↦ absurd (omega arith)
  | inr (inl (p, q)) ↦
      rw (compl_zero, compl_plus b p q, signed_pos 0 (omega arith), signed_pos b q, zero_div b) refl
  | inr (inr p) ↦
      rw
        (
          compl_zero,
          compl_minus b p kb,
          signed_pos 0 (omega arith),
          signed_neg b p kb,
          suc_pred b kb,
          zero_div (u256_mod - b),
        )
        refl
]

div_nonzero :
    (a b : ℕ)
    → a < u256_mod
    → 0 < b
    → b < u256_mod
    → i256_div a b ≡ as_word (quot (as_signed a) (as_signed b))
div_nonzero a b ha hb kb = elim (word-cases a) [
  | inl z ↦ rw z (div_of_zero b hb kb)
  | inr (inl (p, q)) ↦ elim (word-cases b) [
    | inl z ↦ absurd (omega arith)
    | inr (inl (r, s)) ↦ div_plus_plus a b p q r s
    | inr (inr r) ↦ div_plus_minus a b p q r kb
  ]
  | inr (inr p) ↦ elim (word-cases b) [
    | inl z ↦ absurd (omega arith)
    | inr (inl (r, s)) ↦ div_minus_plus a b p ha r s
    | inr (inr r) ↦ div_minus_minus a b p ha r kb
  ]
]

-- `i256_div` is the division of the integers that the words stand for, rounded towards zero and
-- wrapped to a word, and zero for the divisor zero.
pub i256_div-quot :
    (a b : ℕ)
    → a < 2 ^ 256
    → b < 2 ^ 256
    → i256_div a b ≡ (if b == 0 then 0 else as_word (quot (as_signed a) (as_signed b)))
i256_div-quot a b ha hb = elim (==-cases b 0) [
  | inl z ↦ rw z (div_zero a)
  | inr n ↦ rw n (div_nonzero a b ha (ground (arith, n)) hb)
]
