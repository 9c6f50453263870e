-- ===== src/Interpreter/Run/Steps.antt =====
-- Proofs about the steps of a machine that runs legacy code with a sound table.
use sabvm.Prelude.{
  ℕ, zero, suc, ◌+◌, ◌<◌, ◌≤◌, true, false, List, [], ◌∷◌, ◌++◌, Option, none, some, ◌≡◌, ◌≢◌, inl,
  inr, refl, sym, ap, ◌∙◌, length, drop, get_elem?, replicate, arith, Bool-cases, length-append,
  length-replicate,
}
use sabvm.Interpreter.Results.{InstructionResult, continue}
use sabvm.Interpreter.Code.{Contract, is_valid_jump}
use sabvm.Interpreter.Code.Jumps.{get_elem?-lt}
use sabvm.Interpreter.Code.Padding.{get_elem?-padded}
use sabvm.Interpreter.SharedMemory.Contexts.{Contexts, set_current}
use sabvm.Interpreter.Machine.{Interpreter, Instruction}
use sabvm.Interpreter.Instructions.{halt}
use sabvm.Interpreter.Safety.{IsValid, Keeps, with_stack}
use sabvm.Interpreter.Progress.{Follows, Steady, Moves}
use sabvm.Interpreter.Run.{step, goes_on, stopped, run_loop}

-- A table whose instructions keep the machine valid and move on, and whose first one halts.
pub record IsSound (table : ℕ → Instruction) : Type 0 where
  pub keeps : (opcode : ℕ) → Keeps (table opcode)
  pub steady : (opcode : ℕ) → Steady 1 (table opcode)
  pub halts : table 0 ≡ halt

-- The code with its padding.
abbrev pub padded : List ℕ → List ℕ
padded code = code ++ replicate 33 0

-- A machine that runs the analysed code, with the pointer before the last byte of the padding.
pub record IsRunning (contract : Contract) (code : List ℕ) (i : Interpreter) (c : Contexts)
    : Type 0 where
  pub valid : IsValid i c
  pub is_legacy : i.is_eof ≡ false
  pub same_contract : i.contract ≡ contract
  pub same_code : i.bytecode ≡ padded code
  pub position : ℕ
  pub is_inside : position ≤ length code + 32
  pub is_there : i.instruction_pointer ≡ drop position (padded code)

drop_step :
    (xs : List ℕ) (n : ℕ)
    → n < length xs
    → (x : ℕ) × (get_elem? xs n ≡ some x) × (drop n xs ≡ x ∷ drop (suc n) xs)
drop_step [] n h = absurd (omega arith)
drop_step (x ∷ xs) zero h = (x, refl, refl)
drop_step (x ∷ xs) (suc n) h = drop_step xs n (omega arith)

drop-nil : (n : ℕ) → drop {A = ℕ} n [] ≡ []
drop-nil zero = refl
drop-nil (suc n) = refl

drop-drop : (m n : ℕ) (xs : List ℕ) → drop m (drop n xs) ≡ drop (n + m) xs
drop-drop m zero xs = ap (λ k. drop k xs) (omega arith)
drop-drop m (suc n) [] = drop-nil m ∙ sym (drop-nil (suc n + m))
drop-drop m (suc n) (x ∷ xs) =
    let e : suc (n + m) ≡ suc n + m = omega arith in drop-drop m n xs ∙ ap (λ k. drop k (x ∷ xs)) e

length-padded : (code : List ℕ) → length (padded code) ≡ length code + 33
length-padded code =
    length-append code (replicate 33 0) ∙ ap (λ n. length code + n) (length-replicate {A = ℕ} 33 0)

goes_on-continue : (r : InstructionResult) → goes_on r ≡ true → r ≡ continue
goes_on-continue continue e = refl
goes_on-continue other e = cc

true-false : true ≢ false
true-false e = cc

halted : (i : Interpreter) {i' : Interpreter} → halt i ≡ some i' → i'.instruction_result ≢ continue
unfolding halt
halted i e q = cc

module _ (contract : Contract) (code : List ℕ)
    (jumps_inside : (pos : ℕ) → is_valid_jump pos contract ≡ true → pos < length code)
    (table : ℕ → Instruction) (sound : IsSound table) where
  -- Where the pointer is after an instruction at the position `n`, which is in the code itself.
  placed :
      (i i' : Interpreter) (c : Contexts) (n : ℕ)
      → n < length code
      → i.contract ≡ contract
      → i.bytecode ≡ padded code
      → i.instruction_pointer ≡ drop (suc n) (padded code)
      → Moves i i'
      → (m : ℕ) × (m ≤ length code + 32) × (i'.instruction_pointer ≡ drop m (padded code))
  placed i i' c n h sc sb p (inl (m, small, e)) =
      (suc n + m, omega arith, e ∙ ap (drop m) p ∙ drop-drop m (suc n) (padded code))
  placed i i' c n h sc sb p (inr (t, valid, e)) =
      (t, omega (arith, jumps_inside t (sym (ap (is_valid_jump t) sc) ∙ valid)), e ∙ ap (drop t) sb)

  -- The running machine after an instruction that lets it go on.
  running :
      (i i' : Interpreter) (c : Contexts) (n : ℕ)
      → n < length code
      → IsValid i' c
      → i.is_eof ≡ false
      → i.contract ≡ contract
      → i.bytecode ≡ padded code
      → i.instruction_pointer ≡ drop (suc n) (padded code)
      → Follows 1 i i'
      → i'.instruction_result ≡ continue
      → IsRunning contract code i' c
  running i i' c n h v l sc sb p f q =
      let (m, inside, there) = placed i i' c n h sc sb p (f.moves q) in
      record {
        valid = v;
        is_legacy = f.same_format ∙ l;
        same_contract = f.same_contract ∙ sc;
        same_code = f.same_bytecode ∙ sb;
        position = m;
        is_inside = inside;
        is_there = there;
      }

  step_at :
      (i : Interpreter) {op : ℕ} {rest : List ℕ}
      → i.instruction_pointer ≡ op ∷ rest
      → step table i ≡ table op (record i { instruction_pointer = rest })
  unfolding step
  step_at i e =
      ap
        (λ p. elim p as (λ _. Option Interpreter) [
          | [] ↦ none
          | opcode ∷ rest ↦ table opcode (record i { instruction_pointer = rest })
        ])
        e

  -- In the padding there are zeros, at which the machine halts.
  going_on :
      (i i' : Interpreter) (c : Contexts) {c' : Contexts} (r : IsRunning contract code i c')
      (op : ℕ)
      → get_elem? (padded code) r.position ≡ some op
      → IsValid i' c
      → Follows 1 (record i { instruction_pointer = drop (suc r.position) (padded code) }) i'
      → table op (record i { instruction_pointer = drop (suc r.position) (padded code) }) ≡ some i'
      → i'.instruction_result ≡ continue
      → IsRunning contract code i' c
  going_on i i' c r op at v f returns q =
      let j = record i { instruction_pointer = drop (suc r.position) (padded code) } in
      elim (get_elem?-padded code 33 r.position op at) [
        | inl e ↦
            running j i' c r.position (get_elem?-lt code r.position e) v r.is_legacy r.same_contract
              r.same_code refl f q
        | inr (l, z) ↦
            absurd
              (halted j (sym (ap (λ k. k j) sound.halts) ∙ sym (ap (λ o. table o j) z) ∙ returns) q)
      ]

  -- One step of a running machine: it returns, and goes on only with less gas.
  step-Runs :
      (i : Interpreter) (c : Contexts)
      → IsRunning contract code i c
      → (i' : Interpreter) × (m : List ℕ) × (step table i ≡ some i')
        × IsValid i' (set_current m c)
        × (i'.instruction_result ≡ continue
            → IsRunning contract code i' (set_current m c) × (i'.gas.remaining < i.gas.remaining))
  unfolding step
  step-Runs i c r =
      let n = r.position in
      let (op, at, e) =
        drop_step (padded code) n (omega (arith, r.is_inside, length-padded code)) in
      let j = record i { instruction_pointer = drop (suc n) (padded code) } in
      let v =
        with_stack i c r.valid i.stack r.valid.stack_fits i.instruction_result
          (drop (suc n) (padded code)) i.function_stack in
      let (i', m, returns, v') = sound.keeps op j c v in
      let f = sound.steady op j r.is_legacy i' returns in
      (
        i',
        m,
        step_at i (r.is_there ∙ e) ∙ returns,
        v',
        λ q. (going_on i i' (set_current m c) r op at v' f returns q, omega (arith, f.spends q)),
      )

  loop_step :
      (fuel : ℕ) (i : Interpreter) {i' : Interpreter}
      → goes_on i.instruction_result ≡ true
      → step table i ≡ some i'
      → run_loop table (suc fuel) i ≡ run_loop table fuel i'
  unfolding run_loop
  loop_step fuel i e s = rw (e, s, run_loop) refl

  loop_end :
      (fuel : ℕ) (i : Interpreter)
      → goes_on i.instruction_result ≡ false
      → run_loop table (suc fuel) i ≡ stopped i
  unfolding run_loop
  loop_end fuel i e = rw (e, run_loop) refl

  -- A machine that has stopped, and one that runs with less gas than fuel, end the loop.
  pub run_loop-Stops :
      (fuel : ℕ) (i : Interpreter) (c : Contexts)
      → IsValid i c
      → (i.instruction_result ≡ continue
          → IsRunning contract code i c × (i.gas.remaining + 1 < fuel))
      → 0 < fuel
      → (i' : Interpreter) × (m : List ℕ) × (run_loop table fuel i ≡ stopped i')
        × (i'.instruction_result ≢ continue)
        × IsValid i' (set_current m c)
  unfolding set_current
  run_loop-Stops zero i c v h p = absurd (omega arith)
  run_loop-Stops (suc fuel) i c v h p = elim (Bool-cases (goes_on i.instruction_result)) [
    | inl e ↦
        let (r, enough) = h (goes_on-continue i.instruction_result e) in
        let (j, m, returns, v', next) = step-Runs i c r in
        let (i', m', ends, halts, w) =
          run_loop-Stops fuel j (set_current m c) v'
            (λ q. let (r', less) = next q in (r', omega (arith, less, enough)))
            (omega (arith, enough)) in
        (i', m', loop_step fuel i e returns ∙ ends, halts, w)
    | inr e ↦ (i, c.current, loop_end fuel i e, (λ q. true-false (sym (ap goes_on q) ∙ e)), v)
  ]
