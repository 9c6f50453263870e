-- ===== src/Interpreter/Stack/Slices.antt =====
-- Proofs about `push_slice`, which writes the limbs of each word from the last byte on.
use mathlib.Core.List.{reverse, reverse-append}
use sabvm.Prelude.{
  ℕ, zero, suc, ◌+◌, ◌*◌, ◌/◌, ◌^◌, ◌≤◌, List, [], ◌∷◌, ◌++◌, ◌≡◌, ◌⊎◌, inl, inr, refl, ap, ap₂,
  sym, ◌∙◌, arith, ltb, false, ◌==◌, if◌then◌else◌, length, take, drop, from_be_bytes,
  length-append,
}
use sabvm.Prelude.Bytes.{from_be_bytes-append}
use sabvm.State.{U256}
use sabvm.Interpreter.Results.{stack_overflow}
use sabvm.Interpreter.Stack.{
  Stack, ok, err, stack_limit, limbs_of_bytes, word_of_limbs, words_of_slice, push_slice,
}

-- The words of a slice as the interpreter means them: each 32 bytes as a big-endian number, and so
-- the bytes that are left.
unfoldable pub chunk_words : ℕ → List ℕ → List U256
chunk_words zero slice = []
chunk_words (suc fuel) [] = []
chunk_words (suc fuel) (b ∷ slice) =
    from_be_bytes (take 32 (b ∷ slice)) ∷ chunk_words fuel (drop 32 (b ∷ slice))

take-append-drop : (n : ℕ) (xs : List ℕ) → take n xs ++ drop n xs ≡ xs
take-append-drop zero xs = refl
take-append-drop (suc n) [] = refl
take-append-drop (suc n) (x ∷ xs) = ap (λ l. x ∷ l) (take-append-drop n xs)

-- Either a prefix is whole, or nothing is left behind it.
take-cases : (n : ℕ) (xs : List ℕ) → (length (take n xs) ≡ n) ⊎ (drop n xs ≡ [])
take-cases zero xs = inl refl
take-cases (suc n) [] = inr refl
take-cases (suc n) (x ∷ xs) = elim (take-cases n xs) [ inl e ↦ inl (ap suc e) | inr e ↦ inr e ]

length-drop_le : (n : ℕ) (xs : List ℕ) → length (drop n xs) ≤ length xs
length-drop_le zero xs = omega arith
length-drop_le (suc n) [] = omega arith
length-drop_le (suc n) (x ∷ xs) = omega (arith, length-drop_le n xs)

length-take_le : (n : ℕ) (xs : List ℕ) → length (take n xs) ≤ n
length-take_le zero xs = omega arith
length-take_le (suc n) [] = omega arith
length-take_le (suc n) (x ∷ xs) = omega (arith, length-take_le n xs)

length-reverse : (xs : List ℕ) → length (reverse xs) ≡ length xs
length-reverse [] = refl
length-reverse (x ∷ xs) =
    ap length (reverse-append (x ∷ []) xs)
    ∙ omega (arith, length-append (reverse xs) (x ∷ []), length-reverse xs)

no_bytes : (xs : List ℕ) → xs ≡ [] → from_be_bytes (reverse xs) ≡ 0
unfolding from_be_bytes
no_bytes xs e = ap (λ l. from_be_bytes (reverse l)) e

-- The lowest limb and what stands above it.
lowest_limb :
    (l : List ℕ)
    → from_be_bytes (reverse (take 8 l)) + 2 ^ 64 * from_be_bytes (reverse (drop 8 l))
      ≡ from_be_bytes (reverse l)
lowest_limb l =
    let whole : from_be_bytes (reverse l)
        ≡ from_be_bytes (reverse (drop 8 l)) * 256 ^ length (reverse (take 8 l))
          + from_be_bytes (reverse (take 8 l)) =
      ap (λ xs. from_be_bytes (reverse xs)) (sym (take-append-drop 8 l))
      ∙ ap from_be_bytes (reverse-append (take 8 l) (drop 8 l))
      ∙ from_be_bytes-append (reverse (drop 8 l)) (reverse (take 8 l)) in
    elim (take-cases 8 l) [
      | inl e ↦ omega (
        arith,
        whole,
        ap (λ n. from_be_bytes (reverse (drop 8 l)) * 256 ^ n) (length-reverse (take 8 l) ∙ e),
      )
      | inr e ↦ omega (
        arith,
        whole,
        no_bytes (drop 8 l) e,
        ap (λ n. n * 256 ^ length (reverse (take 8 l))) (no_bytes (drop 8 l) e),
      )
    ]

limbs-word :
    (fuel : ℕ) (l : List ℕ)
    → length l ≤ fuel
    → word_of_limbs (limbs_of_bytes fuel l) ≡ from_be_bytes (reverse l)
unfolding word_of_limbs limbs_of_bytes
limbs-word zero [] h = sym (no_bytes [] refl)
limbs-word zero (b ∷ l) h = absurd (omega arith)
limbs-word (suc fuel) [] h = sym (no_bytes [] refl)
limbs-word (suc fuel) (b ∷ l) h = omega (
  arith,
  limbs-word fuel (drop 8 (b ∷ l)) (omega (arith, length-drop_le 7 l)),
  lowest_limb (b ∷ l),
)

reverse_twice : (xs : List ℕ) → reverse (reverse xs) ≡ xs
reverse_twice [] = refl
reverse_twice (x ∷ xs) =
    ap reverse (reverse-append (x ∷ []) xs)
    ∙ reverse-append (reverse xs) (x ∷ [])
    ∙ ap (λ l. x ∷ l) (reverse_twice xs)

words-chunk_words : (fuel : ℕ) (slice : List ℕ) → words_of_slice fuel slice ≡ chunk_words fuel slice
unfolding words_of_slice chunk_words
words-chunk_words zero slice = refl
words-chunk_words (suc fuel) [] = refl
words-chunk_words (suc fuel) (b ∷ slice) =
    let chunk = take 32 (b ∷ slice) in
    ap₂ ◌∷◌
      (limbs-word 32 (reverse chunk)
          (omega (arith, length-reverse chunk, length-take_le 32 (b ∷ slice)))
        ∙ ap from_be_bytes (reverse_twice chunk))
      (words-chunk_words fuel (drop 32 (b ∷ slice)))

nonempty : (n : ℕ) → (suc n == 0) ≡ false
nonempty n = ground arith

fits : (s : Stack) → length s ≤ stack_limit → ltb stack_limit (length s + (0 + 31) / 32) ≡ false
fits s h = ground arith

-- `push_slice` pushes the big-endian words of the slice's chunks of 32 bytes, the last of which may
-- be shorter, one after another; it fails, and pushes nothing, exactly if they would not fit. The
-- stack is within its limit.
pub push_slice-chunk_words :
    (slice : List ℕ) (s : Stack)
    → length s ≤ stack_limit
    → push_slice slice s ≡ (
        if ltb stack_limit (length s + (length slice + 31) / 32)
        then err stack_overflow
        else ok (reverse (chunk_words (length slice) slice) ++ s))
unfolding push_slice chunk_words
push_slice-chunk_words [] s h = rw (fits s h) refl
push_slice-chunk_words (b ∷ slice) s h = rw (nonempty (length slice)) (
    ap
      (λ words.
        if ltb stack_limit (length s + (length (b ∷ slice) + 31) / 32)
        then err stack_overflow
        else ok (reverse words ++ s))
      (words-chunk_words (length (b ∷ slice)) (b ∷ slice)))
