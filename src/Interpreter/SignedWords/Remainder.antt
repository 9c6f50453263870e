-- ===== src/Interpreter/SignedWords/Remainder.antt =====
-- Proofs that compare `i256_mod` with the remainder of integers.
use sabvm.Prelude.{
  ℕ, suc, ◌+◌, ◌-◌, ◌%◌, ◌^◌, ◌<◌, ◌≤◌, ◌≡◌, inl, inr, refl, sym, ◌∙◌, ◌==◌, ==-cases,
  if◌then◌else◌, arith, u256_mod,
}
use sabvm.Prelude.Int.{ℤ, pos, negsuc, pos_part, neg_part}
use sabvm.Interpreter.SignedWords.{i256_mod}
use sabvm.Interpreter.SignedWords.Integers.{
  as_signed, as_word, neg_ℕ, compl_minus, compl_plus, compl_zero, word-cases, signed_pos,
  signed_neg, suc_pred, word_neg,
}

-- The remainder of the division that rounds towards zero: it has the sign of the dividend.
unfoldable pub rem : ℤ → ℤ → ℤ
unfolding neg_ℕ
rem (pos a) b = pos (a % (pos_part b + neg_part b))
rem (negsuc a) b = neg_ℕ (suc a % (pos_part b + neg_part b))

mod_half : (x y : ℕ) → x ≤ 2 ^ 255 → 0 < y → y ≤ 2 ^ 255 → x % y < 2 ^ 255
mod_half x y h p k = grind arith

pos_magnitude : (b : ℕ) → b < 2 ^ 255 → pos_part (as_signed b) + neg_part (as_signed b) ≡ b
unfolding as_signed
pos_magnitude b h = ground arith

neg_magnitude :
    (b : ℕ)
    → 2 ^ 255 ≤ b
    → b < u256_mod
    → pos_part (as_signed b) + neg_part (as_signed b) ≡ u256_mod - b
unfolding as_signed
neg_magnitude b h k = ground arith

mod_plus_plus :
    (a b : ℕ)
    → 0 < a
    → a < 2 ^ 255
    → 0 < b
    → b < 2 ^ 255
    → i256_mod a b ≡ as_word (rem (as_signed a) (as_signed b))
unfolding i256_mod as_word rem
mod_plus_plus a b ha ka hb kb =
    rw (compl_plus a ha ka, compl_plus b hb kb, signed_pos a ka, pos_magnitude b kb)
      (ground (arith, mod_half a b))

mod_plus_minus :
    (a b : ℕ)
    → 0 < a
    → a < 2 ^ 255
    → 2 ^ 255 ≤ b
    → b < u256_mod
    → i256_mod a b ≡ as_word (rem (as_signed a) (as_signed b))
unfolding i256_mod as_word rem
mod_plus_minus a b ha ka hb kb =
    rw (compl_plus a ha ka, compl_minus b hb kb, signed_pos a ka, neg_magnitude b hb kb)
      (ground (arith, mod_half a (u256_mod - b)))

mod_minus_plus :
    (a b : ℕ)
    → 2 ^ 255 ≤ a
    → a < u256_mod
    → 0 < b
    → b < 2 ^ 255
    → i256_mod a b ≡ as_word (rem (as_signed a) (as_signed b))
unfolding i256_mod rem
mod_minus_plus a b ha ka hb kb =
    rw
      (
        compl_minus a ha ka,
        compl_plus b hb kb,
        signed_neg a ha ka,
        pos_magnitude b kb,
        suc_pred a ka,
      )
      (ground (arith, mod_half (u256_mod - a) b, word_neg ((u256_mod - a) % b)))

mod_minus_minus :
    (a b : ℕ)
    → 2 ^ 255 ≤ a
    → a < u256_mod
    → 2 ^ 255 ≤ b
    → b < u256_mod
    → i256_mod a b ≡ as_word (rem (as_signed a) (as_signed b))
unfolding i256_mod rem
mod_minus_minus a b ha ka hb kb =
    rw
      (
        compl_minus a ha ka,
        compl_minus b hb kb,
        signed_neg a ha ka,
        neg_magnitude b hb kb,
        suc_pred a ka,
      )
      (ground
        (arith, mod_half (u256_mod - a) (u256_mod - b), word_neg ((u256_mod - a) % (u256_mod - b))))

mod_zero_left : (b : ℕ) → i256_mod 0 b ≡ 0
unfolding i256_mod
mod_zero_left b = rw compl_zero (ground arith)

mod_zero : (a : ℕ) → a < u256_mod → i256_mod a 0 ≡ 0
unfolding i256_mod
mod_zero a h = rw compl_zero (ground arith)

zero_mod : (b : ℕ) → 0 % b ≡ 0
zero_mod b = grind arith

rem_zero_left : (b : ℕ) → as_word (rem (as_signed 0) (as_signed b)) ≡ 0
unfolding rem as_word
rem_zero_left b =
    rw (signed_pos 0 (omega arith), zero_mod (pos_part (as_signed b) + neg_part (as_signed b))) refl

mod_nonzero :
    (a b : ℕ)
    → a < u256_mod
    → 0 < b
    → b < u256_mod
    → i256_mod a b ≡ as_word (rem (as_signed a) (as_signed b))
mod_nonzero a b ha hb kb = elim (word-cases a) [
  | inl z ↦ rw z (mod_zero_left b ∙ sym (rem_zero_left b))
  | inr (inl (p, q)) ↦ elim (word-cases b) [
    | inl z ↦ absurd (omega arith)
    | inr (inl (r, s)) ↦ mod_plus_plus a b p q r s
    | inr (inr r) ↦ mod_plus_minus a b p q r kb
  ]
  | inr (inr p) ↦ elim (word-cases b) [
    | inl z ↦ absurd (omega arith)
    | inr (inl (r, s)) ↦ mod_minus_plus a b p ha r s
    | inr (inr r) ↦ mod_minus_minus a b p ha r kb
  ]
]

-- `i256_mod` is the remainder of the integers that the words stand for, with the sign of the
-- dividend, wrapped to a word, and zero for the divisor zero.
pub i256_mod-rem :
    (a b : ℕ)
    → a < 2 ^ 256
    → b < 2 ^ 256
    → i256_mod a b ≡ (if b == 0 then 0 else as_word (rem (as_signed a) (as_signed b)))
i256_mod-rem a b ha hb = elim (==-cases b 0) [
  | inl z ↦ rw z (mod_zero a ha)
  | inr n ↦ rw n (mod_nonzero a b ha (ground (arith, n)) hb)
]
