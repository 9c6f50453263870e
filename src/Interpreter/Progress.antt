-- ===== src/Interpreter/Progress.antt =====
-- How an instruction of legacy code moves on: what it costs, and where the instruction pointer goes.
pub mod Operations
pub mod Environment
pub mod Tabled
use sabvm.Prelude.{
  length, ℕ, zero, suc, ◌+◌, ◌-◌, ◌≤◌, Bool, true, false, List, [], ◌∷◌, Option, none, some, ◌≡◌,
  ◌≢◌, ◌⊎◌, inl, inr, refl, sym, ap, ◌∙◌, subst, leb, ltb, ltb-ge, if◌then◌else◌, drop, arith,
  leb→le, ◌%◌, u64_mod, Bool-cases, some_inj, ⊤,
}
use sabvm.State.{U256, SpecId, enabled}
use sabvm.Gas.{Gas, record_cost, saturating_add64}
use sabvm.Interpreter.Results.{
  InstructionResult, continue, out_of_gas, memory_oog, not_activated, eof_opcode_disabled_in_legacy,
  stack_underflow, invalid_operand_oog,
}
use sabvm.Interpreter.Stack.{Stack, Result, ok, err}
use sabvm.Interpreter.SharedMemory.{SharedMemory, memory_len}
use sabvm.Interpreter.Code.{is_valid_jump}
use sabvm.Interpreter.Machine.{
  Interpreter, Instruction, fail, check, require_eof, gas_cost, gas_or_fail, pop1, pop2, pop3,
  pop_top1, pop_top2, pop_top3, set_top, replace_top, on_stack, as_usize_or_fail,
  as_usize_or_fail_ret, grow_memory, resize_memory,
}

-- The pointer goes over at most 32 bytes, or to a jump destination.
abbrev pub Moves : Interpreter → Interpreter → Type 0
Moves i i' =
    ((m : ℕ) × (m ≤ 32) × (i'.instruction_pointer ≡ drop m i.instruction_pointer))
    ⊎ ((target : ℕ) × (is_valid_jump target i.contract ≡ true)
        × (i'.instruction_pointer ≡ drop target i.bytecode))

-- The second machine comes after the first: if it goes on, it has spent `n` units of gas at least.
pub record Follows (n : ℕ) (i i' : Interpreter) : Type 0 where
  pub same_contract : i'.contract ≡ i.contract
  pub same_bytecode : i'.bytecode ≡ i.bytecode
  pub same_format : i'.is_eof ≡ i.is_eof
  pub spends : i'.instruction_result ≡ continue → i'.gas.remaining + n ≤ i.gas.remaining
  pub moves : i'.instruction_result ≡ continue → Moves i i'

abbrev pub Steps : ℕ → Interpreter → Option Interpreter → Type 0
Steps n i o = (i' : Interpreter) → o ≡ some i' → Follows n i i'

-- In legacy code the machine that comes out of the instruction comes after the one that goes in.
abbrev pub Steady : ℕ → Instruction → Type 0
Steady n k = (i : Interpreter) → i.is_eof ≡ false → Steps n i (k i)

pub some-Steps : (n : ℕ) (i j : Interpreter) → Follows n i j → Steps n i (some j)
some-Steps n i j h i' e = subst (Follows n i) (some_inj e) h

pub none-Steps : (n : ℕ) (i : Interpreter) → Steps n i none
none-Steps n i i' e = absurd cc

module _ (i : Interpreter) (s : Stack) (m : SharedMemory) (g : Gas) where
  -- What comes after the machine with another stack and memory, and with less gas.
  pub rebase :
      (n n' : ℕ) (i' : Interpreter)
      → g.remaining + n' ≤ i.gas.remaining + n
      → Follows n (record i { stack = s; shared_memory = m; gas = g }) i'
      → Follows n' i i'
  rebase n n' i' h f = record {
    same_contract = f.same_contract;
    same_bytecode = f.same_bytecode;
    same_format = f.same_format;
    spends = λ e. omega (arith, f.spends e);
    moves = f.moves;
  }

  pub stays :
      g.remaining ≤ i.gas.remaining
      → Follows 0 i (record i { stack = s; shared_memory = m; gas = g })
  stays h = record {
    same_contract = refl;
    same_bytecode = refl;
    same_format = refl;
    spends = λ e. omega arith;
    moves = λ e. inl (0, omega arith, refl);
  }

  pub failed :
      (n : ℕ) (result : InstructionResult)
      → result ≢ continue
      → Follows n i
          (record i { stack = s; shared_memory = m; gas = g; instruction_result = result })
  failed n result h = record {
    same_contract = refl;
    same_bytecode = refl;
    same_format = refl;
    spends = λ e. absurd (h e);
    moves = λ e. absurd (h e);
  }

pub fail-Steps :
    (n : ℕ) (result : InstructionResult)
    → result ≢ continue
    → (i : Interpreter) → Steps n i (fail result i)
fail-Steps n result h i =
    some-Steps n i (record i { instruction_result = result })
      (failed i i.stack i.shared_memory i.gas n result h)

pub done-Steps : (i : Interpreter) → Steps 0 i (some i)
done-Steps i = some-Steps 0 i i (stays i i.stack i.shared_memory i.gas (omega arith))

pub if-Steps :
    (n : ℕ) (i : Interpreter) (b : Bool) {x y : Option Interpreter}
    → Steps n i x
    → Steps n i y
    → Steps n i (if b then x else y)
if-Steps n i true p q = p
if-Steps n i false p q = q

pub gas_cost-Steady :
    (cost : ℕ) (k : Instruction) → 1 ≤ cost → Steady 0 k → Steady 1 (gas_cost cost k)
unfolding gas_cost
gas_cost-Steady cost k p h i l = elim (Bool-cases (leb cost i.gas.remaining)) [
  | inl e ↦
      let g = record (i.gas) { remaining = i.gas.remaining - cost } in
      rw e (λ i' q.
        rebase i i.stack i.shared_memory g 0 1 i' (omega (arith, p, leb→le cost i.gas.remaining e))
          (h (record i { gas = g }) l i' q))
  | inr e ↦ rw e (fail-Steps 1 out_of_gas (λ f. cc) i)
]

pub gas_or_fail-Steady :
    (cost : Option ℕ) (k : Instruction)
    → ((n : ℕ) → cost ≡ some n → 1 ≤ n)
    → Steady 0 k
    → Steady 1 (gas_or_fail cost k)
unfolding gas_or_fail
gas_or_fail-Steady none k p h i l = fail-Steps 1 out_of_gas (λ f. cc) i
gas_or_fail-Steady (some cost) k p h i l = gas_cost-Steady cost k (p cost refl) h i l

module _ (n : ℕ) where
  pub check-Steady :
      (spec min : SpecId) (k : Instruction) → Steady n k → Steady n (check spec min k)
  unfolding check
  check-Steady spec min k h i l =
      if-Steps n i (enabled spec min) (h i l) (fail-Steps n not_activated (λ f. cc) i)

  -- The instructions of the object format fail in legacy code.
  pub require_eof-Steady : (k : Instruction) → Steady n (require_eof k)
  unfolding require_eof
  require_eof-Steady k i l i' e =
      fail-Steps n eof_opcode_disabled_in_legacy (λ f. cc) i i'
        (sym (ap (λ b. if b then k i else fail eof_opcode_disabled_in_legacy i) l) ∙ e)

  pub as_usize_or_fail_ret-Steady :
      (reason : InstructionResult)
      → reason ≢ continue
      → (x : U256) (k : ℕ → Instruction) → ((m : ℕ) → Steady n (k m))
      → Steady n (as_usize_or_fail_ret reason x k)
  unfolding as_usize_or_fail_ret
  as_usize_or_fail_ret-Steady reason p x k h i l =
      if-Steps n i _ (fail-Steps n reason p i) (h (x % u64_mod) i l)

  pub as_usize_or_fail-Steady :
      (x : U256) (k : ℕ → Instruction)
      → ((m : ℕ) → Steady n (k m))
      → Steady n (as_usize_or_fail x k)
  unfolding as_usize_or_fail
  as_usize_or_fail-Steady = as_usize_or_fail_ret-Steady invalid_operand_oog (λ f. cc)

  module _ (i : Interpreter) (l : i.is_eof ≡ false) where
    -- An instruction that goes on with another stack.
    popped : (s : Stack) (k : Instruction) → Steady n k → Steps n i (k (record i { stack = s }))
    popped s k h i' e =
        rebase i s i.shared_memory i.gas n n i' (omega arith) (h (record i { stack = s }) l i' e)

    underflow : (s : Stack) → Steps n i (fail stack_underflow (record i { stack = s }))
    underflow s =
        some-Steps n i (record i { stack = s; instruction_result = stack_underflow })
          (failed i s i.shared_memory i.gas n stack_underflow (λ f. cc))

    pop1-Steps :
        (k : U256 → Instruction)
        → ((x : U256) → Steady n (k x))
        → (s : Stack) → Steps n i (pop1 k (record i { stack = s }))
    unfolding pop1
    pop1-Steps k h [] = underflow []
    pop1-Steps k h (x ∷ s) = rw (ltb-ge (suc (length s)) 1 (omega arith)) (popped s (k x) (h x))

    pop2-Steps :
        (k : U256 → U256 → Instruction)
        → ((x y : U256) → Steady n (k x y))
        → (s : Stack) → Steps n i (pop2 k (record i { stack = s }))
    unfolding pop2
    pop2-Steps k h [] = underflow []
    pop2-Steps k h (x ∷ []) = underflow (x ∷ [])
    pop2-Steps k h (x ∷ y ∷ s) =
        rw (ltb-ge (suc (suc (length s))) 2 (omega arith)) (popped s (k x y) (h x y))

    pop3-Steps :
        (k : U256 → U256 → U256 → Instruction)
        → ((x y z : U256) → Steady n (k x y z))
        → (s : Stack) → Steps n i (pop3 k (record i { stack = s }))
    unfolding pop3
    pop3-Steps k h [] = underflow []
    pop3-Steps k h (x ∷ []) = underflow (x ∷ [])
    pop3-Steps k h (x ∷ y ∷ []) = underflow (x ∷ y ∷ [])
    pop3-Steps k h (x ∷ y ∷ z ∷ s) =
        rw (ltb-ge (suc (suc (suc (length s)))) 3 (omega arith)) (popped s (k x y z) (h x y z))

    pop_top1-Steps :
        (k : U256 → Instruction)
        → ((x : U256) → Steady n (k x))
        → (s : Stack) → Steps n i (pop_top1 k (record i { stack = s }))
    unfolding pop_top1
    pop_top1-Steps k h [] = underflow []
    pop_top1-Steps k h (x ∷ s) =
        rw (ltb-ge (suc (length s)) 1 (omega arith)) (popped (x ∷ s) (k x) (h x))

    pop_top2-Steps :
        (k : U256 → U256 → Instruction)
        → ((x y : U256) → Steady n (k x y))
        → (s : Stack) → Steps n i (pop_top2 k (record i { stack = s }))
    unfolding pop_top2
    pop_top2-Steps k h [] = underflow []
    pop_top2-Steps k h (x ∷ []) = underflow (x ∷ [])
    pop_top2-Steps k h (x ∷ y ∷ s) =
        rw (ltb-ge (suc (suc (length s))) 2 (omega arith)) (popped (y ∷ s) (k x y) (h x y))

    pop_top3-Steps :
        (k : U256 → U256 → U256 → Instruction)
        → ((x y z : U256) → Steady n (k x y z))
        → (s : Stack) → Steps n i (pop_top3 k (record i { stack = s }))
    unfolding pop_top3
    pop_top3-Steps k h [] = underflow []
    pop_top3-Steps k h (x ∷ []) = underflow (x ∷ [])
    pop_top3-Steps k h (x ∷ y ∷ []) = underflow (x ∷ y ∷ [])
    pop_top3-Steps k h (x ∷ y ∷ z ∷ s) =
        rw (ltb-ge (suc (suc (suc (length s)))) 3 (omega arith))
          (popped (z ∷ s) (k x y z) (h x y z))

  pub pop1-Steady : (k : U256 → Instruction) → ((x : U256) → Steady n (k x)) → Steady n (pop1 k)
  pop1-Steady k h i l = pop1-Steps i l k h i.stack

  pub pop2-Steady :
      (k : U256 → U256 → Instruction) → ((x y : U256) → Steady n (k x y)) → Steady n (pop2 k)
  pop2-Steady k h i l = pop2-Steps i l k h i.stack

  pub pop3-Steady :
      (k : U256 → U256 → U256 → Instruction)
      → ((x y z : U256) → Steady n (k x y z))
      → Steady n (pop3 k)
  pop3-Steady k h i l = pop3-Steps i l k h i.stack

  pub pop_top1-Steady :
      (k : U256 → Instruction) → ((x : U256) → Steady n (k x)) → Steady n (pop_top1 k)
  pop_top1-Steady k h i l = pop_top1-Steps i l k h i.stack

  pub pop_top2-Steady :
      (k : U256 → U256 → Instruction) → ((x y : U256) → Steady n (k x y)) → Steady n (pop_top2 k)
  pop_top2-Steady k h i l = pop_top2-Steps i l k h i.stack

  pub pop_top3-Steady :
      (k : U256 → U256 → U256 → Instruction)
      → ((x y z : U256) → Steady n (k x y z))
      → Steady n (pop_top3 k)
  pop_top3-Steady k h i l = pop_top3-Steps i l k h i.stack

pub with_stack_Steps : (i : Interpreter) (s : Stack) → Steps 0 i (some (record i { stack = s }))
with_stack_Steps i s =
    some-Steps 0 i (record i { stack = s }) (stays i s i.shared_memory i.gas (omega arith))

pub set_top-Steady : (x : U256) → Steady 0 (set_top x)
unfolding set_top
set_top-Steady x i l = with_stack_Steps i (replace_top x i.stack)

-- An error of the stack's functions stops the machine.
abbrev pub Stops : Result Stack → Type 0
Stops (ok s) = ⊤
Stops (err e) = e ≢ continue

pub on_stack-Steps : (r : Result Stack) (i : Interpreter) → Stops r → Steps 0 i (on_stack r i)
unfolding on_stack
on_stack-Steps (ok s) i h = with_stack_Steps i s
on_stack-Steps (err e) i h = fail-Steps 0 e h i

grow_memory-le :
    (size : ℕ) (m : SharedMemory) (g : Gas)
    → let (m', g', success) = grow_memory size m g in g'.remaining ≤ g.remaining
unfolding grow_memory
grow_memory-le size m g = ground arith

pub resize_memory-Steady :
    (n offset len : ℕ) (k : Instruction) → Steady n k → Steady n (resize_memory offset len k)
unfolding resize_memory
resize_memory-Steady n offset len k h i l =
    let size = saturating_add64 offset len in
    let (m, g, success) = grow_memory size i.shared_memory i.gas in
    if-Steps n i (ltb (memory_len i.shared_memory) size)
      (if-Steps n i success
        (λ i' e.
          rebase i i.stack m g n n i' (omega (arith, grow_memory-le size i.shared_memory i.gas))
            (h (record i { shared_memory = m; gas = g }) l i' e))
        (fail-Steps n memory_oog (λ f. cc) i))
      (h i l)
