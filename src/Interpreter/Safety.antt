-- ===== src/Interpreter/Safety.antt =====
-- What a valid machine is, and what it means that an instruction keeps it valid.
pub mod StackLimit
pub mod Accesses
pub mod Machine
pub mod Stacks
pub mod Control
pub mod System
pub mod Operators
pub mod Tabled
use sabvm.Prelude.{
  Bool, true, false, ℕ, zero, suc, ◌+◌, ◌-◌, ◌*◌, ◌/◌, ◌%◌, ◌^◌, ◌<◌, ◌≤◌, List, [], ◌∷◌, ◌++◌,
  Option, none, some, ◌≡◌, refl, sym, ap, ◌∙◌, leb, ltb, ltb-ge, ◌==◌, if◌then◌else◌, length, take,
  drop, min, u64_mod, arith, inl, inr, Bool-cases, leb→le, subst, ⊤,
}
use sabvm.State.{U256, SpecId, enabled}
use sabvm.Gas.{
  Gas, record_cost, num_words, memory_gas, memory_gas_for_len, saturating_add64, saturating_mul64,
}
use sabvm.Interpreter.Results.{
  InstructionResult, out_of_gas, memory_oog, not_activated, eof_opcode_disabled_in_legacy,
  stack_underflow, invalid_operand_oog,
}
use sabvm.Interpreter.Stack.{Stack, FunctionStack, Result, ok, err, push, stack_limit}
use sabvm.Interpreter.SharedMemory.{
  SharedMemory, memory_len, current_expansion_cost, resize, resize_buffer,
}
use sabvm.Interpreter.SharedMemory.Contexts.{
  Contexts, flat, shared, set_current, with_current, memory_len-shared,
}
use sabvm.Interpreter.Machine.{
  Interpreter, Instruction, fail, check, require_eof, gas_cost, gas_or_fail, pop1, pop2, pop3,
  pop_top1, pop_top2, pop_top3, set_top, replace_top, on_stack, on_unchecked, push_value,
  as_usize_or_fail, as_usize_or_fail_ret, grow_memory, resize_memory,
}

-- The stack is within its limit; the memory is one of separate contexts, and what the running one
-- has cost, together with the gas that is left, is too little to pay for a memory whose addresses
-- would not fit.
pub record IsValid (i : Interpreter) (c : Contexts) : Type 0 where
  pub stack_fits : length i.stack ≤ stack_limit
  pub is_shared : i.shared_memory ≡ shared c
  pub callers_fit : length (flat c.callers) < 2 ^ 40
  pub affordable : memory_gas_for_len (length c.current) + i.gas.remaining < 2 ^ 54

-- A run that returns, that is, that makes no access out of bounds, in a valid machine in which the
-- callers' memories are as they were.
abbrev pub Returns : Option Interpreter → Contexts → Type 0
Returns o c = (i : Interpreter) × (m : List ℕ) × (o ≡ some i) × IsValid i (set_current m c)

abbrev pub Keeps : Instruction → Type 0
Keeps k = (i : Interpreter) (c : Contexts) → IsValid i c → Returns (k i) c

-- The same for what runs with `n` bytes of memory there.
abbrev pub KeepsWith : ℕ → Instruction → Type 0
KeepsWith n k =
    (i : Interpreter) (c : Contexts) → IsValid i c → n ≤ length c.current → Returns (k i) c

module _ (i : Interpreter) (c : Contexts) (v : IsValid i c) where
  -- A change of the stack, within its limit.
  pub with_stack :
      (s : Stack)
      → length s ≤ stack_limit
      → (result : InstructionResult) (pointer : List ℕ) (f : FunctionStack)
      → IsValid
          (record i {
            stack = s;
            instruction_result = result;
            instruction_pointer = pointer;
            function_stack = f;
          })
          c
  with_stack s h result pointer f = record {
    stack_fits = h;
    is_shared = v.is_shared;
    callers_fit = v.callers_fit;
    affordable = v.affordable;
  }

  pub done-Returns : Returns (some i) c
  unfolding set_current
  done-Returns = (i, c.current, refl, v)

  pub fail-Returns : (result : InstructionResult) → Returns (fail result i) c
  unfolding set_current
  fail-Returns result = (
    record i { instruction_result = result },
    c.current,
    refl,
    with_stack i.stack v.stack_fits result i.instruction_pointer i.function_stack,
  )

  charged :
      (cost : ℕ)
      → IsValid (record i { gas = record (i.gas) { remaining = i.gas.remaining - cost } }) c
  charged cost = record {
    stack_fits = v.stack_fits;
    is_shared = v.is_shared;
    callers_fit = v.callers_fit;
    affordable = omega (arith, v.affordable);
  }

pub if-Returns :
    (b : Bool) (c : Contexts) {x y : Option Interpreter}
    → Returns x c
    → Returns y c
    → Returns (if b then x else y) c
if-Returns true c p q = p
if-Returns false c p q = q

pub gas_cost-Keeps : (cost : ℕ) (k : Instruction) → Keeps k → Keeps (gas_cost cost k)
unfolding gas_cost
gas_cost-Keeps cost k h i c v = elim (Bool-cases (leb cost i.gas.remaining)) [
  | inl e ↦ rw e (h _ c (charged i c v cost))
  | inr e ↦ rw e (fail-Returns i c v out_of_gas)
]

pub gas_or_fail-Keeps : (cost : Option ℕ) (k : Instruction) → Keeps k → Keeps (gas_or_fail cost k)
unfolding gas_or_fail
gas_or_fail-Keeps none k h i c v = fail-Returns i c v out_of_gas
gas_or_fail-Keeps (some cost) k h i c v = gas_cost-Keeps cost k h i c v

pub check-Keeps : (spec min : SpecId) (k : Instruction) → Keeps k → Keeps (check spec min k)
unfolding check
check-Keeps spec min k h i c v =
    if-Returns (enabled spec min) c (h i c v) (fail-Returns i c v not_activated)

pub require_eof-Keeps : (k : Instruction) → Keeps k → Keeps (require_eof k)
unfolding require_eof
require_eof-Keeps k h i c v =
    if-Returns i.is_eof c (h i c v) (fail-Returns i c v eof_opcode_disabled_in_legacy)

module _ (i : Interpreter) (c : Contexts) (v : IsValid i c) where
  -- The machine with another stack, all else the same.
  pub only_stack : (s : Stack) → length s ≤ stack_limit → IsValid (record i { stack = s }) c
  only_stack s h = with_stack i c v s h i.instruction_result i.instruction_pointer i.function_stack

  underflow :
      (s : Stack)
      → length s ≤ stack_limit
      → Returns (fail stack_underflow (record i { stack = s })) c
  underflow s h = fail-Returns (record i { stack = s }) c (only_stack s h) stack_underflow

  pop1_of :
      (k : U256 → Instruction)
      → ((x : U256) → Keeps (k x))
      → (s : Stack) → length s ≤ stack_limit
      → Returns (pop1 k (record i { stack = s })) c
  unfolding pop1
  pop1_of k h [] l = underflow [] l
  pop1_of k h (x ∷ s) l =
      rw (ltb-ge (suc (length s)) 1 (omega arith)) (h x _ c (only_stack s (omega arith)))

  pop2_of :
      (k : U256 → U256 → Instruction)
      → ((x y : U256) → Keeps (k x y))
      → (s : Stack) → length s ≤ stack_limit
      → Returns (pop2 k (record i { stack = s })) c
  unfolding pop2
  pop2_of k h [] l = underflow [] l
  pop2_of k h (x ∷ []) l = underflow (x ∷ []) l
  pop2_of k h (x ∷ y ∷ s) l =
      rw (ltb-ge (suc (suc (length s))) 2 (omega arith)) (h x y _ c (only_stack s (omega arith)))

  pop3_of :
      (k : U256 → U256 → U256 → Instruction)
      → ((x y z : U256) → Keeps (k x y z))
      → (s : Stack) → length s ≤ stack_limit
      → Returns (pop3 k (record i { stack = s })) c
  unfolding pop3
  pop3_of k h [] l = underflow [] l
  pop3_of k h (x ∷ []) l = underflow (x ∷ []) l
  pop3_of k h (x ∷ y ∷ []) l = underflow (x ∷ y ∷ []) l
  pop3_of k h (x ∷ y ∷ z ∷ s) l =
      rw (ltb-ge (suc (suc (suc (length s)))) 3 (omega arith))
        (h x y z _ c (only_stack s (omega arith)))

  pop_top1_of :
      (k : U256 → Instruction)
      → ((x : U256) → Keeps (k x))
      → (s : Stack) → length s ≤ stack_limit
      → Returns (pop_top1 k (record i { stack = s })) c
  unfolding pop_top1
  pop_top1_of k h [] l = underflow [] l
  pop_top1_of k h (x ∷ s) l =
      rw (ltb-ge (suc (length s)) 1 (omega arith)) (h x _ c (only_stack (x ∷ s) l))

  pop_top2_of :
      (k : U256 → U256 → Instruction)
      → ((x y : U256) → Keeps (k x y))
      → (s : Stack) → length s ≤ stack_limit
      → Returns (pop_top2 k (record i { stack = s })) c
  unfolding pop_top2
  pop_top2_of k h [] l = underflow [] l
  pop_top2_of k h (x ∷ []) l = underflow (x ∷ []) l
  pop_top2_of k h (x ∷ y ∷ s) l =
      rw (ltb-ge (suc (suc (length s))) 2 (omega arith))
        (h x y _ c (only_stack (y ∷ s) (omega arith)))

  pop_top3_of :
      (k : U256 → U256 → U256 → Instruction)
      → ((x y z : U256) → Keeps (k x y z))
      → (s : Stack) → length s ≤ stack_limit
      → Returns (pop_top3 k (record i { stack = s })) c
  unfolding pop_top3
  pop_top3_of k h [] l = underflow [] l
  pop_top3_of k h (x ∷ []) l = underflow (x ∷ []) l
  pop_top3_of k h (x ∷ y ∷ []) l = underflow (x ∷ y ∷ []) l
  pop_top3_of k h (x ∷ y ∷ z ∷ s) l =
      rw (ltb-ge (suc (suc (suc (length s)))) 3 (omega arith))
        (h x y z _ c (only_stack (z ∷ s) (omega arith)))

pub pop1-Keeps : (k : U256 → Instruction) → ((x : U256) → Keeps (k x)) → Keeps (pop1 k)
pop1-Keeps k h i c v = pop1_of i c v k h i.stack v.stack_fits

pub pop2-Keeps : (k : U256 → U256 → Instruction) → ((x y : U256) → Keeps (k x y)) → Keeps (pop2 k)
pop2-Keeps k h i c v = pop2_of i c v k h i.stack v.stack_fits

pub pop3-Keeps :
    (k : U256 → U256 → U256 → Instruction) → ((x y z : U256) → Keeps (k x y z)) → Keeps (pop3 k)
pop3-Keeps k h i c v = pop3_of i c v k h i.stack v.stack_fits

pub pop_top1-Keeps : (k : U256 → Instruction) → ((x : U256) → Keeps (k x)) → Keeps (pop_top1 k)
pop_top1-Keeps k h i c v = pop_top1_of i c v k h i.stack v.stack_fits

pub pop_top2-Keeps :
    (k : U256 → U256 → Instruction) → ((x y : U256) → Keeps (k x y)) → Keeps (pop_top2 k)
pop_top2-Keeps k h i c v = pop_top2_of i c v k h i.stack v.stack_fits

pub pop_top3-Keeps :
    (k : U256 → U256 → U256 → Instruction) → ((x y z : U256) → Keeps (k x y z)) → Keeps (pop_top3 k)
pop_top3-Keeps k h i c v = pop_top3_of i c v k h i.stack v.stack_fits

length-replace_top : (x : U256) (s : Stack) → length (replace_top x s) ≡ length s
length-replace_top x [] = refl
length-replace_top x (y ∷ s) = refl

pub set_top-Keeps : (x : U256) → Keeps (set_top x)
unfolding set_top
set_top-Keeps x i c v = done-Returns _ c (
    only_stack i c v (replace_top x i.stack)
      (omega (arith, v.stack_fits, length-replace_top x i.stack)))

-- A result of the stack's functions that is within the limit.
abbrev pub Fits : Result Stack → Type 0
Fits (ok s) = length s ≤ stack_limit
Fits (err e) = ⊤

pub on_stack-Returns :
    (r : Result Stack) (i : Interpreter) (c : Contexts)
    → IsValid i c
    → Fits r
    → Returns (on_stack r i) c
unfolding on_stack
on_stack-Returns (ok s) i c v h = done-Returns _ c (only_stack i c v s h)
on_stack-Returns (err e) i c v h = fail-Returns i c v e

-- A function of the stack that made no access out of bounds, with a result within the limit.
abbrev pub FitsUnchecked : Option (Result Stack) → Type 0
FitsUnchecked none = ⊥
FitsUnchecked (some r) = Fits r

pub on_unchecked-Returns :
    (o : Option (Result Stack)) (i : Interpreter) (c : Contexts)
    → IsValid i c
    → FitsUnchecked o
    → Returns (on_unchecked o i) c
unfolding on_unchecked
on_unchecked-Returns none i c v h = absurd h
on_unchecked-Returns (some r) i c v h = on_stack-Returns r i c v h

pub as_usize_or_fail_ret-Keeps :
    (reason : InstructionResult) (x : U256) (k : ℕ → Instruction)
    → ((n : ℕ) → n < u64_mod → Keeps (k n))
    → Keeps (as_usize_or_fail_ret reason x k)
unfolding as_usize_or_fail_ret
as_usize_or_fail_ret-Keeps reason x k h i c v =
    if-Returns _ c (fail-Returns i c v reason) (h (x % u64_mod) (omega arith) i c v)

pub as_usize_or_fail-Keeps :
    (x : U256) (k : ℕ → Instruction)
    → ((n : ℕ) → n < u64_mod → Keeps (k n))
    → Keeps (as_usize_or_fail x k)
unfolding as_usize_or_fail
as_usize_or_fail-Keeps = as_usize_or_fail_ret-Keeps invalid_operand_oog
