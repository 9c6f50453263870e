-- ===== src/Interpreter/Safety/Accesses.antt =====
-- Proofs that what `resize_memory!` has prepared is accessed within its bounds.
use sabvm.Prelude.{
  false, ℕ, ◌+◌, ◌-◌, ◌*◌, ◌/◌, ◌%◌, ◌^◌, ◌<◌, ◌≤◌, ◌≡◌, ◌⊎◌, refl, sym, ap, ◌∙◌, leb, ltb,
  if◌then◌else◌, length, arith, inl, inr, Bool-cases, leb→le, ltb→lt, u64_mod, subst,
}
use sabvm.Gas.{num_words, memory_gas, memory_gas_for_len, saturating_add64, saturating_mul64}
use sabvm.Gas.Prices.{memory_gas_mono}
use sabvm.Interpreter.Results.{memory_oog}
use sabvm.Interpreter.SharedMemory.{
  SharedMemory, memory_len, current_expansion_cost, resize, resize_buffer,
}
use sabvm.Interpreter.SharedMemory.Contexts.{Contexts, set_current, memory_len-shared}
use sabvm.Interpreter.SharedMemory.Frames.{resize-shared}
use sabvm.Interpreter.SharedMemory.Isolation.{length-resize_buffer}
use sabvm.Interpreter.Machine.{Interpreter, Instruction, fail, resize_memory}
use sabvm.Interpreter.Safety.{IsValid, Returns, Keeps, KeepsWith, fail-Returns}

square : (w : ℕ) → 2 ^ 32 ≤ w → 2 ^ 64 ≤ w * w
square w h = grind arith

word_split : (w : ℕ) → (w < 2 ^ 32) ⊎ (2 ^ 32 ≤ w)
word_split w = ground arith

-- What a memory that can be paid for is short enough for.
few_words : (w : ℕ) → memory_gas w < 2 ^ 54 → w < 2 ^ 32
unfolding memory_gas saturating_add64 saturating_mul64
few_words w h = elim (word_split w) [ inl l ↦ l | inr g ↦ absurd (ground (arith, square w g)) ]

num_words_exact : (n : ℕ) → n < 2 ^ 63 → num_words n ≡ (n + 31) / 32
unfolding num_words saturating_add64
num_words_exact n h = ground arith

short : (n : ℕ) → memory_gas (num_words n) < 2 ^ 54 → num_words n < 2 ^ 32
short n h = few_words (num_words n) h

words_cover : (n : ℕ) → num_words n < 2 ^ 32 → (n ≤ num_words n * 32) × (n < 2 ^ 38)
unfolding num_words saturating_add64
words_cover n h = ground arith

num_words_mono : (n m : ℕ) → n ≤ m → num_words n ≤ num_words m
unfolding num_words saturating_add64
num_words_mono n m h = ground arith

num_words-mul : (w : ℕ) → w < 2 ^ 32 → num_words (w * 32) ≡ w
unfolding num_words saturating_add64
num_words-mul w h = ground arith

memory_gas-lt : (w : ℕ) → memory_gas w < 2 ^ 64
unfolding memory_gas saturating_add64
memory_gas-lt w = ground arith

-- What the growth to a size costs.
abbrev growth_cost : ℕ → SharedMemory → ℕ
growth_cost new_size m =
    (memory_gas (num_words new_size) + u64_mod - current_expansion_cost m) % u64_mod

-- The machine after the growth.
abbrev grown : ℕ → Interpreter → Interpreter
grown new_size i = record i {
  shared_memory = resize (num_words new_size * 32) i.shared_memory;
  gas = record (i.gas) { remaining = i.gas.remaining - growth_cost new_size i.shared_memory };
}

resize_memory_lem :
    (offset len : ℕ) (k : Instruction) (i : Interpreter)
    → resize_memory offset len k i ≡ (
        if ltb (memory_len i.shared_memory) (saturating_add64 offset len)
        then (if leb (growth_cost (saturating_add64 offset len) i.shared_memory) i.gas.remaining
            then k (grown (saturating_add64 offset len) i)
            else fail memory_oog i)
        else k i)
unfolding resize_memory
resize_memory_lem offset len k i =
    elim (Bool-cases
      (leb (growth_cost (saturating_add64 offset len) i.shared_memory) i.gas.remaining)) [
        | inl e ↦ rw e refl
        | inr e ↦ rw e refl
      ]

ltb-false : (a b : ℕ) → ltb a b ≡ false → b ≤ a
ltb-false a b h = ground arith

module _ (i : Interpreter) (c : Contexts) (v : IsValid i c) where
  len_current : memory_len i.shared_memory ≡ length c.current
  len_current = ap memory_len v.is_shared ∙ memory_len-shared c

  cost_current : current_expansion_cost i.shared_memory ≡ memory_gas (num_words (length c.current))
  unfolding current_expansion_cost memory_gas_for_len
  cost_current = ap (λ n. memory_gas (num_words n)) len_current

  current_short : length c.current < 2 ^ 38
  unfolding memory_gas_for_len
  current_short =
      (words_cover (length c.current) (short (length c.current) (omega (arith, v.affordable)))).1

  -- What can be paid for is short, and costs as much as is accounted for it.
  paid :
      (n : ℕ)
      → length c.current < n
      → growth_cost n i.shared_memory ≤ i.gas.remaining
      → (growth_cost n i.shared_memory + memory_gas (num_words (length c.current))
          ≡ memory_gas (num_words n))
        × (num_words n < 2 ^ 32)
  unfolding memory_gas_for_len
  paid n h k =
      let mono = memory_gas_mono _ _ (num_words_mono (length c.current) n (omega arith)) in
      let cost : growth_cost n i.shared_memory
          ≡ memory_gas (num_words n) - memory_gas (num_words (length c.current)) =
        omega (arith, cost_current, mono, memory_gas-lt (num_words n)) in
      (omega (arith, cost, mono), short n (omega (arith, cost, mono, k, v.affordable)))

  grown-IsValid :
      (n : ℕ)
      → length c.current < n
      → growth_cost n i.shared_memory ≤ i.gas.remaining
      → IsValid (grown n i) (set_current (resize_buffer (num_words n * 32) c.current) c)
  unfolding memory_gas_for_len set_current
  grown-IsValid n h k =
      let (cost, few) = paid n h k in
      record {
        stack_fits = v.stack_fits;
        is_shared =
            ap (resize (num_words n * 32)) v.is_shared
            ∙ resize-shared (num_words n * 32) c (omega (arith, few, v.callers_fit));
        callers_fit = v.callers_fit;
        affordable = omega (
          arith,
          cost,
          k,
          v.affordable,
          ap (λ t. memory_gas (num_words t)) (length-resize_buffer (num_words n * 32) c.current),
          ap memory_gas (num_words-mul (num_words n) few),
        );
      }

  unsaturated :
      (offset len : ℕ)
      → saturating_add64 offset len < 2 ^ 38
      → saturating_add64 offset len ≡ offset + len
  unfolding saturating_add64
  unsaturated offset len h = ground arith

  enough :
      (offset len : ℕ)
      → saturating_add64 offset len ≤ memory_len i.shared_memory
      → offset + len ≤ length c.current
  enough offset len h = omega (
    arith,
    len_current,
    current_short,
    unsaturated offset len (omega (arith, len_current, current_short, h)),
  )

  grown-Returns :
      (offset len : ℕ) (k : Instruction)
      → KeepsWith (offset + len) k
      → memory_len i.shared_memory < saturating_add64 offset len
      → growth_cost (saturating_add64 offset len) i.shared_memory ≤ i.gas.remaining
      → Returns (k (grown (saturating_add64 offset len) i)) c
  unfolding set_current
  grown-Returns offset len k h l p =
      let n = saturating_add64 offset len in
      let longer : length c.current < n = omega (arith, len_current, l) in
      let (cover, is_short) = words_cover n (paid n longer p).1 in
      h (grown n i) (set_current (resize_buffer (num_words n * 32) c.current) c)
        (grown-IsValid n longer p)
        (omega (
          arith,
          cover,
          unsaturated offset len is_short,
          length-resize_buffer (num_words n * 32) c.current,
        ))

  resize_memory-Returns :
      (offset len : ℕ) (k : Instruction)
      → KeepsWith (offset + len) k
      → Returns (resize_memory offset len k i) c
  resize_memory-Returns offset len k h =
      subst (λ o. Returns o c) (sym (resize_memory_lem offset len k i))
        (elim (Bool-cases (ltb (memory_len i.shared_memory) (saturating_add64 offset len))) [
          | inl e ↦
              rw e
                (elim (Bool-cases (
                  leb (growth_cost (saturating_add64 offset len) i.shared_memory)
                    i.gas.remaining)) [
                      | inl p ↦ rw p (grown-Returns offset len k h (ltb→lt _ _ e) (leb→le _ _ p))
                      | inr p ↦ rw p (fail-Returns i c v memory_oog)
                    ])
          | inr e ↦ rw e (h i c v (enough offset len (ltb-false _ _ e)))
        ])

pub resize_memory-Keeps :
    (offset len : ℕ) (k : Instruction)
    → KeepsWith (offset + len) k
    → Keeps (resize_memory offset len k)
resize_memory-Keeps offset len k h i c v = resize_memory-Returns i c v offset len k h
