-- ===== src/Gas/Logarithm.antt =====
-- Proofs about `log2floor`, one limb after another.
use sabvm.Prelude.{
  ℕ, suc, zero, ◌+◌, ◌*◌, ◌/◌, ◌^◌, ◌<◌, ◌≤◌, ◌≡◌, arith, inl, inr, ◌-◌, ◌%◌, ap, ◌∙◌, subst, List,
  ◌∷◌, [], sym, refl, ◌⊎◌,
}
use sabvm.Gas.Calc.{digits, leading_zeros, log2floor_loop, log2floor}

digits-suc : (k x : ℕ) → 0 < x → digits (suc k) x ≡ suc (digits k (x / 2))
unfolding digits
digits-suc k x p = ground arith

digits_zero : (k : ℕ) → digits k 0 ≡ 0
unfolding digits
digits_zero zero = refl
digits_zero (suc k) = refl

-- `x` has `d` binary digits.
HasDigits : ℕ → ℕ → Type 0
HasDigits x d = (2 ^ d ≤ 2 * x) × (x < 2 ^ d)

double : (x d : ℕ) → HasDigits (x / 2) d → HasDigits x (suc d)
unfolding HasDigits
double x d (l, u) = (omega arith, omega arith)

HasDigits-one : HasDigits 1 1
unfolding HasDigits
HasDigits-one = (omega arith, omega arith)

half-cases : (x : ℕ) → 0 < x → (x ≡ 1) ⊎ (0 < x / 2)
half-cases x p = ground arith

digits-HasDigits : (k x : ℕ) → x < 2 ^ k → 0 < x → HasDigits x (digits k x)
unfolding HasDigits
digits-HasDigits zero x h p = omega arith
digits-HasDigits (suc k) x h p =
    subst (HasDigits x) (sym (digits-suc k x p)) (elim (half-cases x p) [
      | inl q ↦
          subst (λ y. HasDigits y (suc (digits k (y / 2)))) (sym q)
            (subst (λ d. HasDigits 1 (suc d)) (sym (digits_zero k)) HasDigits-one)
      | inr q ↦ double x _ (digits-HasDigits k (x / 2) (omega arith) q)
    ])

suc_add : (a b : ℕ) → suc a + b ≡ suc (a + b)
suc_add a b = omega arith

pow_suc : (n : ℕ) → 2 ^ suc n ≡ 2 ^ n * 2
pow_suc n = omega arith

pow_add : (a b : ℕ) → 2 ^ (a + b) ≡ 2 ^ b * 2 ^ a
pow_add zero b = grind arith
pow_add (suc a) b =
    ap (λ t. 2 ^ t) (suc_add a b)
    ∙ pow_suc (a + b)
    ∙ ap (λ t. t * 2) (pow_add a b)
    ∙ grind (arith, pow_suc a)

HasDigits-absurd : (x d : ℕ) → 0 < x → x ≡ 0 → HasDigits x d
unfolding HasDigits
HasDigits-absurd x d p q = omega arith

limb_up0 : (x d : ℕ) → HasDigits x d → HasDigits x (0 + d)
limb_up0 x d h = subst (HasDigits x) (omega arith) h

limb_up1 : (x d : ℕ) → HasDigits (x / 2 ^ 64) d → HasDigits x (64 + d)
unfolding HasDigits
limb_up1 x d (l, u) = (omega (arith, pow_add 64 d), omega (arith, pow_add 64 d))

limb_up2 : (x d : ℕ) → HasDigits (x / 2 ^ 128) d → HasDigits x (128 + d)
unfolding HasDigits
limb_up2 x d (l, u) = (omega (arith, pow_add 128 d), omega (arith, pow_add 128 d))

limb_up3 : (x d : ℕ) → HasDigits (x / 2 ^ 192) d → HasDigits x (192 + d)
unfolding HasDigits
limb_up3 x d (l, u) = (omega (arith, pow_add 192 d), omega (arith, pow_add 192 d))

digits_positive : (x : ℕ) → 0 < x → 0 < digits 64 x
digits_positive x p = omega (arith, digits-suc 63 x p)

digits-bound : (k x : ℕ) → digits k x ≤ k
unfolding digits
digits-bound zero x = omega arith
digits-bound (suc k) x = grind (arith, digits-bound k (x / 2))

leading_zeros-digits : (x : ℕ) → leading_zeros x ≡ 64 - digits 64 x
unfolding leading_zeros
leading_zeros-digits x = refl

log2floor_here :
    (limb l d : ℕ) (limbs : List ℕ)
    → 0 < limb
    → leading_zeros limb ≡ 64 - d
    → d ≤ 64
    → 0 < d
    → suc (log2floor_loop (limb ∷ limbs) (l + 64)) ≡ l + d
unfolding log2floor_loop
log2floor_here limb l d limbs p h k q = ground arith

log2floor_skip :
    (l : ℕ) (limbs : List ℕ) → log2floor_loop (0 ∷ limbs) (l + 64) ≡ log2floor_loop limbs l
unfolding log2floor_loop
log2floor_skip l limbs = ground arith

zero-cases : (x : ℕ) → (x ≡ 0) ⊎ (0 < x)
zero-cases x = ground arith

-- The loop at a limb finds the digits, if it does both where it stops there and where it goes on.
log2floor_round :
    (x limb l : ℕ) (limbs : List ℕ)
    → limb < 2 ^ 64
    → ((d : ℕ) → 0 < limb → HasDigits limb d → HasDigits x (l + d))
    → (limb ≡ 0 → HasDigits x (suc (log2floor_loop limbs l)))
    → HasDigits x (suc (log2floor_loop (limb ∷ limbs) (l + 64)))
log2floor_round x limb l limbs h up rest = elim (zero-cases limb) [
  | inl q ↦
      subst (λ y. HasDigits x (suc (log2floor_loop (y ∷ limbs) (l + 64)))) (sym q)
        (subst (λ n. HasDigits x (suc n)) (sym (log2floor_skip l limbs)) (rest q))
  | inr p ↦
      subst (HasDigits x)
        (sym (
          log2floor_here limb l (digits 64 limb) limbs p (leading_zeros-digits limb)
            (digits-bound 64 limb) (digits_positive limb p)))
        (up (digits 64 limb) p (digits-HasDigits 64 limb h p))
]

log2floor-HasDigits : (v : ℕ) → v < 2 ^ 256 → 0 < v → HasDigits v (suc (log2floor v))
unfolding log2floor
log2floor-HasDigits v h p =
    log2floor_round v (v / 2 ^ 192 % 2 ^ 64) 192
      (v / 2 ^ 128 % 2 ^ 64 ∷ v / 2 ^ 64 % 2 ^ 64 ∷ v % 2 ^ 64 ∷ []) (omega arith)
      (λ d q k. limb_up3 v d (subst (λ y. HasDigits y d) (omega arith) k))
      λ z3.
        log2floor_round v (v / 2 ^ 128 % 2 ^ 64) 128 (v / 2 ^ 64 % 2 ^ 64 ∷ v % 2 ^ 64 ∷ [])
          (omega arith) (λ d q k. limb_up2 v d (subst (λ y. HasDigits y d) (omega arith) k))
          λ z2.
            log2floor_round v (v / 2 ^ 64 % 2 ^ 64) 64 (v % 2 ^ 64 ∷ []) (omega arith)
              (λ d q k. limb_up1 v d (subst (λ y. HasDigits y d) (omega arith) k))
              λ z1.
                log2floor_round v (v % 2 ^ 64) 0 [] (omega arith)
                  (λ d q k. limb_up0 v d (subst (λ y. HasDigits y d) (omega arith) k))
                  (λ z0. HasDigits-absurd v 1 p (omega arith))

-- For a positive 256-bit word `log2floor` is the logarithm to the base 2, rounded down.
pub log2floor-log :
    (v : ℕ) → v < 2 ^ 256 → 0 < v → (2 ^ log2floor v ≤ v) × (v < 2 ^ suc (log2floor v))
unfolding HasDigits
log2floor-log v h p =
    (omega (arith, log2floor-HasDigits v h p), omega (arith, log2floor-HasDigits v h p))
