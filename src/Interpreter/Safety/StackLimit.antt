-- ===== src/Interpreter/Safety/StackLimit.antt =====
-- Proofs that the functions of the stack keep to its limit.
use sabvm.Prelude.{
  Bool, true, false, ℕ, zero, suc, ◌+◌, ◌-◌, ◌/◌, ◌<◌, ◌≤◌, List, [], ◌∷◌, Option, none, some, ◌≡◌,
  refl, ap, ◌∙◌, leb, ltb, ◌==◌, if◌then◌else◌, length, length-set, drop, set, get_elem?, arith,
  length-append,
}
use mathlib.Core.List.{reverse, reverse-cons}
use sabvm.State.{U256}
use sabvm.Interpreter.Stack.{
  Stack, Result, ok, stack_limit, push, dup, exchange, swap, swap_elements, push_slice,
  words_of_slice,
}
use sabvm.Interpreter.Safety.{Fits, FitsUnchecked}

Fits-if :
    (b : Bool) (x y : Result Stack)
    → (b ≡ true → Fits x)
    → (b ≡ false → Fits y)
    → Fits (if b then x else y)
Fits-if true x y p q = p refl
Fits-if false x y p q = q refl

pub push-Fits : (x : U256) (s : Stack) → length s ≤ stack_limit → Fits (push x s)
unfolding push
push-Fits x s h = Fits-if (length s == stack_limit) _ _ (λ e. tt) (λ e. ground (arith, e))

FitsUnchecked-if :
    (b : Bool) (x y : Option (Result Stack))
    → (b ≡ true → FitsUnchecked x)
    → (b ≡ false → FitsUnchecked y)
    → FitsUnchecked (if b then x else y)
FitsUnchecked-if true x y p q = p refl
FitsUnchecked-if false x y p q = q refl

-- An element below the length is there.
get_elem?-lt : (s : Stack) (i : ℕ) → i < length s → (x : U256) × (get_elem? s i ≡ some x)
get_elem?-lt [] i h = absurd (omega arith)
get_elem?-lt (x ∷ s) zero h = (x, refl)
get_elem?-lt (x ∷ s) (suc i) h = get_elem?-lt s i (omega arith)

copied :
    (s : Stack) (i : ℕ)
    → i < length s
    → length s < stack_limit
    → FitsUnchecked (elim (get_elem? s i) as (λ _. Option (Result Stack)) [
      | some x ↦ some (ok (x ∷ s))
      | none ↦ none
    ])
copied s i l h = let (x, e) = get_elem?-lt s i l in rw e (omega arith)

pub dup-Fits : (n : ℕ) (s : Stack) → 1 ≤ n → length s ≤ stack_limit → FitsUnchecked (dup n s)
unfolding dup
dup-Fits n s p h =
    FitsUnchecked-if (n == 0) _ _ (λ e. absurd (ground (arith, e)))
      λ e.
        FitsUnchecked-if (ltb (length s) n) _ _ (λ e. tt)
          λ e.
            FitsUnchecked-if (ltb stack_limit (length s + 1)) _ _ (λ e. tt)
              λ f. copied s (n - 1) (ground (arith, e)) (ground (arith, f))

swap_elements-Fits :
    (i j : ℕ) (s : Stack)
    → i < length s
    → j < length s
    → length s ≤ stack_limit
    → FitsUnchecked (swap_elements i j s)
unfolding swap_elements
swap_elements-Fits i j s l m h =
    let (x, e) = get_elem?-lt s i l in
    let (y, f) = get_elem?-lt s j m in
    rw (e, f, swap_elements) (omega (arith, length-set (set s i y) j x, length-set s i y))

pub exchange-Fits :
    (n m : ℕ) (s : Stack) → 1 ≤ m → length s ≤ stack_limit → FitsUnchecked (exchange n m s)
unfolding exchange
exchange-Fits n m s p h =
    FitsUnchecked-if (m == 0) _ _ (λ e. absurd (ground (arith, e)))
      λ e.
        FitsUnchecked-if (leb (length s) (n + m)) _ _ (λ e. tt)
          λ e. swap_elements-Fits n (n + m) s (ground (arith, e)) (ground (arith, e)) h

pub swap-Fits : (n : ℕ) (s : Stack) → 1 ≤ n → length s ≤ stack_limit → FitsUnchecked (swap n s)
unfolding swap
swap-Fits n s p h = exchange-Fits 0 n s p h

length-drop : {A : Type 0} (n : ℕ) (xs : List A) → length (drop n xs) ≡ length xs - n
length-drop zero xs = omega arith
length-drop (suc n) [] = omega arith
length-drop (suc n) (x ∷ xs) = omega (arith, length-drop n xs)

length-reverse : (xs : List ℕ) → length (reverse xs) ≡ length xs
length-reverse [] = refl
length-reverse (x ∷ xs) =
    ap length (reverse-cons x xs)
    ∙ omega (arith, length-append (reverse xs) (x ∷ []), length-reverse xs)

-- One word for each 32 bytes that are begun.
length-words_of_slice :
    (fuel : ℕ) (bytes : List ℕ)
    → length bytes ≤ fuel
    → length (words_of_slice fuel bytes) ≡ (length bytes + 31) / 32
unfolding words_of_slice
length-words_of_slice zero bytes h = omega arith
length-words_of_slice (suc fuel) [] h = refl
length-words_of_slice (suc fuel) (b ∷ bytes) h = omega (
  arith,
  length-words_of_slice fuel (drop 32 (b ∷ bytes)) (omega (arith, length-drop 32 (b ∷ bytes))),
  length-drop 32 (b ∷ bytes),
)

pub push_slice-Fits :
    (bytes : List ℕ) (s : Stack) → length s ≤ stack_limit → Fits (push_slice bytes s)
unfolding push_slice
push_slice-Fits bytes s h =
    Fits-if (length bytes == 0) _ _ (λ e. h)
      λ e.
        Fits-if (ltb stack_limit (length s + (length bytes + 31) / 32)) _ _ (λ e. tt)
          λ e. ground (
            arith,
            e,
            length-append (reverse (words_of_slice (length bytes) bytes)) s,
            length-reverse (words_of_slice (length bytes) bytes),
            length-words_of_slice (length bytes) bytes,
          )
