-- ===== src/Interpreter/SignedWords/Integers.antt =====
-- Words as the integers that they stand for, and the signs that `i256_sign_compl` takes off.
use sabvm.Prelude.{
  ℕ, zero, suc, ◌+◌, ◌-◌, ◌%◌, ◌^◌, ◌<◌, ◌≤◌, ◌≡◌, ◌⊎◌, refl, ltb, if◌then◌else◌, arith, u256_mod,
}
use sabvm.Prelude.Int.{ℤ, pos, negsuc, pos_part, neg_part}
use sabvm.Interpreter.SignedWords.{i256_sign_compl, i256_sign, two_compl, minus, plus, zero_sign}

-- A word as the integer that it stands for, and back.
unfoldable pub as_signed : ℕ → ℤ
as_signed w = if ltb w (2 ^ 255) then pos w else negsuc (u256_mod - w - 1)

unfoldable pub as_word : ℤ → ℕ
as_word z = (pos_part z + u256_mod - neg_part z) % u256_mod

unfoldable pub neg_ℕ : ℕ → ℤ
neg_ℕ zero = pos 0
neg_ℕ (suc n) = negsuc n

pub compl_minus : (a : ℕ) → 2 ^ 255 ≤ a → a < u256_mod → i256_sign_compl a ≡ (u256_mod - a, minus)
unfolding i256_sign_compl i256_sign two_compl
compl_minus a h k = ground arith

pub compl_plus : (a : ℕ) → 0 < a → a < 2 ^ 255 → i256_sign_compl a ≡ (a, plus)
unfolding i256_sign_compl i256_sign two_compl
compl_plus a h k = ground arith

pub compl_zero : i256_sign_compl 0 ≡ (0, zero_sign)
unfolding i256_sign_compl i256_sign two_compl
compl_zero = refl

-- The three kinds of words.
pub word-cases : (a : ℕ) → (a ≡ 0) ⊎ ((0 < a) × (a < 2 ^ 255)) ⊎ (2 ^ 255 ≤ a)
word-cases a = ground arith

pub signed_pos : (a : ℕ) → a < 2 ^ 255 → as_signed a ≡ pos a
unfolding as_signed
signed_pos a h = ground arith

pub signed_neg : (a : ℕ) → 2 ^ 255 ≤ a → a < u256_mod → as_signed a ≡ negsuc (u256_mod - a - 1)
unfolding as_signed
signed_neg a h k = ground arith

pub suc_pred : (a : ℕ) → a < u256_mod → suc (u256_mod - a - 1) ≡ u256_mod - a
suc_pred a h = omega arith

pub word_neg : (n : ℕ) → n < u256_mod → as_word (neg_ℕ n) ≡ (u256_mod - n) % u256_mod
unfolding as_word neg_ℕ
word_neg zero h = refl
word_neg (suc n) h = ground arith
