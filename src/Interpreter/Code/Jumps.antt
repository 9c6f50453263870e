-- ===== src/Interpreter/Code/Jumps.antt =====
-- Proofs about the analysis: the jump table holds the instructions that are jump destinations.
use sabvm.Prelude.{
  ℕ, zero, suc, ◌+◌, ◌-◌, ◌<◌, ◌≤◌, true, false, List, [], ◌∷◌, none, some, ◌≡◌, ◌≢◌, ◌↔◌, ◌⊎◌, inl,
  inr, refl, sym, ap, ◌∙◌, ◌==◌, leb, ◌&&◌, if◌then◌else◌, ⊤, length, length-set, length-replicate,
  set, get_elem?, replicate, arith, Bool-cases, Option-cases, ==-cases, some_inj, subst, lt→ltb,
}
use sabvm.Interpreter.Code.{JumpTable, is_valid, jumpdest, iterator_step, analyze_loop, analyze}

-- The bytes that an instruction takes with what it pushes.
unfoldable pub width : ℕ → ℕ
width opcode = if leb 0x60 opcode && leb opcode 0x7F then opcode - 0x5E else 1

-- The instructions that follow one another from the position `a` on, without a jump.
pub data Reaches (code : List ℕ) : ℕ → ℕ → Type 0 where
  here : (n : ℕ) → Reaches code n n
  there :
      (a n op : ℕ) → get_elem? code a ≡ some op → Reaches code (a + width op) n → Reaches code a n

-- An instruction of the code that is a jump destination.
abbrev pub IsDestination : List ℕ → ℕ → Type 0
IsDestination code n = Reaches code 0 n × (get_elem? code n ≡ some jumpdest)

abbrev pub IsByteList : List ℕ → Type 0
IsByteList [] = ⊤
IsByteList (b ∷ bytes) = (b < 256) × IsByteList bytes

pub get_elem?-byte :
    (code : List ℕ) (i op : ℕ) → IsByteList code → get_elem? code i ≡ some op → op < 256
get_elem?-byte [] i op h e = absurd cc
get_elem?-byte (b ∷ code) zero op (h, hs) e = subst (λ n. n < 256) (some_inj e) h
get_elem?-byte (b ∷ code) (suc i) op (h, hs) e = get_elem?-byte code i op hs e

pub width-iterator_step : (op : ℕ) → op < 256 → iterator_step op ≡ width op
unfolding iterator_step width
width-iterator_step op h = ground arith

pub width-pos : (op : ℕ) → 1 ≤ width op
unfolding width
width-pos op = ground arith

get_elem?-set_same : (t : JumpTable) (n : ℕ) → n < length t → get_elem? (set t n true) n ≡ some true
get_elem?-set_same [] n h = absurd (omega arith)
get_elem?-set_same (b ∷ t) zero h = refl
get_elem?-set_same (b ∷ t) (suc n) h = get_elem?-set_same t n (omega arith)

get_elem?-set_other :
    (t : JumpTable) (i n : ℕ)
    → get_elem? (set t i true) n ≡ some true
    → (get_elem? t n ≡ some true) ⊎ (n ≡ i)
get_elem?-set_other [] i n h = inl h
get_elem?-set_other (b ∷ t) zero zero h = inr refl
get_elem?-set_other (b ∷ t) zero (suc n) h = inl h
get_elem?-set_other (b ∷ t) (suc i) zero h = inl h
get_elem?-set_other (b ∷ t) (suc i) (suc n) h = elim (get_elem?-set_other t i n h) [
  | inl e ↦ inl e
  | inr e ↦ inr (ap suc e)
]

get_elem?-set_keeps :
    (t : JumpTable) (i n : ℕ) → get_elem? t n ≡ some true → get_elem? (set t i true) n ≡ some true
get_elem?-set_keeps [] i n h = h
get_elem?-set_keeps (b ∷ t) zero zero h = refl
get_elem?-set_keeps (b ∷ t) zero (suc n) h = h
get_elem?-set_keeps (b ∷ t) (suc i) zero h = h
get_elem?-set_keeps (b ∷ t) (suc i) (suc n) h = get_elem?-set_keeps t i n h

pub get_elem?-lt :
    {A : Type 0} (xs : List A) (n : ℕ) {x : A} → get_elem? xs n ≡ some x → n < length xs
get_elem?-lt [] n e = absurd cc
get_elem?-lt (y ∷ xs) zero e = omega arith
get_elem?-lt (y ∷ xs) (suc n) e = omega (arith, get_elem?-lt xs n e)

get_elem?-replicate : (k n : ℕ) → get_elem? (replicate k false) n ≢ some true
get_elem?-replicate zero n e = cc
get_elem?-replicate (suc k) zero e = cc
get_elem?-replicate (suc k) (suc n) e = get_elem?-replicate k n e

length-turn :
    (op i : ℕ) (t : JumpTable) → length (if op == jumpdest then set t i true else t) ≡ length t
length-turn op i t = elim (Bool-cases (op == jumpdest)) [
  | inl e ↦ rw e (length-set t i true)
  | inr e ↦ rw e refl
]

turn_keeps :
    (op i n : ℕ) (t : JumpTable)
    → get_elem? t n ≡ some true
    → get_elem? (if op == jumpdest then set t i true else t) n ≡ some true
turn_keeps op i n t h = elim (Bool-cases (op == jumpdest)) [
  | inl e ↦ rw e (get_elem?-set_keeps t i n h)
  | inr e ↦ rw e h
]

turn_sets :
    (op i n : ℕ) (t : JumpTable)
    → get_elem? (if op == jumpdest then set t i true else t) n ≡ some true
    → (get_elem? t n ≡ some true) ⊎ ((n ≡ i) × (op ≡ jumpdest))
turn_sets op i n t h = elim (==-cases op jumpdest) [
  | inl e ↦ elim (get_elem?-set_other t i n (rw e at h)) [ inl k ↦ inl k | inr k ↦ inr (k, e) ]
  | inr e ↦ inl (rw e at h)
]

loop_end :
    (fuel : ℕ) (code : List ℕ) (i : ℕ) (t : JumpTable)
    → get_elem? code i ≡ none
    → analyze_loop (suc fuel) code i t ≡ t
unfolding analyze_loop
loop_end fuel code i t e = rw (e, analyze_loop) refl

loop_turn :
    (fuel : ℕ) (code : List ℕ) (i : ℕ) (t : JumpTable) {op : ℕ}
    → get_elem? code i ≡ some op
    → analyze_loop (suc fuel) code i t
      ≡ analyze_loop fuel code (i + iterator_step op) (if op == jumpdest then set t i true else t)
unfolding analyze_loop
loop_turn fuel code i t e = rw (e, analyze_loop) refl

module _ (code : List ℕ) (bytes : IsByteList code) where
  step_width : (i op : ℕ) → get_elem? code i ≡ some op → iterator_step op ≡ width op
  step_width i op e = width-iterator_step op (get_elem?-byte code i op bytes e)

  analyze_loop_keeps :
      (fuel i n : ℕ) (t : JumpTable)
      → get_elem? t n ≡ some true
      → get_elem? (analyze_loop fuel code i t) n ≡ some true
  unfolding analyze_loop
  analyze_loop_keeps zero i n t h = h
  analyze_loop_keeps (suc fuel) i n t h = elim (Option-cases (get_elem? code i)) [
    | inl e ↦ ap (λ l. get_elem? l n) (loop_end fuel code i t e) ∙ h
    | inr (op, e) ↦
        ap (λ l. get_elem? l n) (loop_turn fuel code i t e)
        ∙ (analyze_loop_keeps fuel (i + iterator_step op) n _ (turn_keeps op i n t h))
  ]

  -- What the loop sets is a destination among the instructions from its position on.
  analyze_loop_sound :
      (fuel i n : ℕ) (t : JumpTable)
      → get_elem? (analyze_loop fuel code i t) n ≡ some true
      → (get_elem? t n ≡ some true) ⊎ (Reaches code i n × (get_elem? code n ≡ some jumpdest))
  unfolding analyze_loop
  analyze_loop_sound zero i n t h = inl h
  analyze_loop_sound (suc fuel) i n t h = elim (Option-cases (get_elem? code i)) [
    | inl e ↦ inl (sym (ap (λ l. get_elem? l n) (loop_end fuel code i t e)) ∙ h)
    | inr (op, e) ↦
        elim (analyze_loop_sound fuel (i + iterator_step op) n _
          (sym (ap (λ l. get_elem? l n) (loop_turn fuel code i t e)) ∙ h)) [
            | inr (r, d) ↦
                inr (there i n op e (subst (λ w. Reaches code (i + w) n) (step_width i op e) r), d)
            | inl k ↦ elim (turn_sets op i n t k) [
              | inl s ↦ inl s
              | inr (p, q) ↦ inr (
                subst (λ m. Reaches code i m) (sym p) (here i),
                ap (get_elem? code) p ∙ e ∙ ap some q,
              )
            ]
          ]
  ]

  -- With fuel for the rest of the code, every destination in it is set.
  analyze_loop_complete :
      (fuel i n : ℕ) (t : JumpTable)
      → length code ≤ fuel + i
      → length t ≡ length code
      → Reaches code i n
      → get_elem? code n ≡ some jumpdest
      → get_elem? (analyze_loop fuel code i t) n ≡ some true
  unfolding analyze_loop
  analyze_loop_complete zero i n t h l (here m) d = absurd (omega (arith, get_elem?-lt code n d))
  analyze_loop_complete zero i n t h l (there a m op e r) d =
      absurd (omega (arith, get_elem?-lt code i e))
  analyze_loop_complete (suc fuel) i n t h l (here m) d =
      ap (λ l. get_elem? l n) (loop_turn fuel code i t d)
      ∙ analyze_loop_keeps fuel _ n _
          (get_elem?-set_same t n (omega (arith, l, get_elem?-lt code n d)))
  analyze_loop_complete (suc fuel) i n t h l (there a m op e r) d =
      ap (λ l. get_elem? l n) (loop_turn fuel code i t e)
      ∙ (analyze_loop_complete fuel (i + iterator_step op) n _
          (omega (arith, h, step_width i op e, width-pos op)) (length-turn op i t ∙ l)
          (subst (λ w. Reaches code (i + w) n) (sym (step_width i op e)) r) d)

  length-analyze_loop :
      (fuel i : ℕ) (t : JumpTable) → length (analyze_loop fuel code i t) ≡ length t
  unfolding analyze_loop
  length-analyze_loop zero i t = refl
  length-analyze_loop (suc fuel) i t = elim (Option-cases (get_elem? code i)) [
    | inl e ↦ ap length (loop_end fuel code i t e)
    | inr (op, e) ↦
        ap length (loop_turn fuel code i t e)
        ∙ (length-analyze_loop fuel (i + iterator_step op) _ ∙ length-turn op i t)
  ]

valid_bit : (t : JumpTable) (n : ℕ) → is_valid n t ≡ true → get_elem? t n ≡ some true
unfolding is_valid
valid_bit t n h = elim (Option-cases (get_elem? t n)) [
  | inl e ↦ absurd (ground (arith, h, e))
  | inr (b, e) ↦ ground (arith, h, e)
]

bit_valid : (t : JumpTable) (n : ℕ) → get_elem? t n ≡ some true → is_valid n t ≡ true
unfolding is_valid
bit_valid t n e = rw (e, lt→ltb n (length t) (get_elem?-lt t n e)) refl

pub is_valid-analyze :
    (code : List ℕ) (n : ℕ)
    → IsByteList code
    → (is_valid n (analyze code) ≡ true) ↔ IsDestination code n
unfolding analyze
is_valid-analyze code n bytes = (
  λ h. elim (analyze_loop_sound code bytes (length code) 0 n _ (valid_bit _ n h)) [
    | inl e ↦ absurd (get_elem?-replicate (length code) n e)
    | inr d ↦ d
  ],
  λ (r, d). bit_valid _ n (
      analyze_loop_complete code bytes (length code) 0 n _ (omega arith)
        (length-replicate (length code) false) r d),
)
