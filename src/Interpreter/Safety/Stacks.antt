-- ===== src/Interpreter/Safety/Stacks.antt =====
-- Proofs that the instructions on the stack keep the machine valid.
use sabvm.Prelude.{
  ℕ, ◌+◌, ◌/◌, ◌%◌, ◌≤◌, List, [], ◌∷◌, Option, some, refl, length, take, drop, arith,
}
use sabvm.State.{SpecId, shanghai}
use sabvm.Gas.{verylow, base}
use sabvm.Interpreter.Results.{stack_underflow}
use sabvm.Interpreter.Stack
use sabvm.Interpreter.Stack.{Result, ok, err, push_slice, stack_limit}
use sabvm.Interpreter.SharedMemory.Contexts.{Contexts, set_current}
use sabvm.Interpreter.Machine.{Interpreter, fail}
use sabvm.Interpreter.Instructions.StackOps
use sabvm.Interpreter.Instructions.StackOps.{immediate, skip_immediate}
use sabvm.Interpreter.Safety.{
  IsValid, Returns, Keeps, gas_cost-Keeps, check-Keeps, require_eof-Keeps, on_stack-Returns,
  on_unchecked-Returns, done-Returns, fail-Returns, only_stack, with_stack, Fits,
}
use sabvm.Interpreter.Safety.StackLimit.{
  push-Fits, dup-Fits, swap-Fits, exchange-Fits, push_slice-Fits,
}

popped-Returns :
    (i : Interpreter) (c : Contexts)
    → IsValid i c
    → (s : Stack.Stack) → length s ≤ stack_limit
    → Returns
        (elim (Stack.pop s) as (λ _. Option Interpreter) [
          | ok (x, s') ↦ some (record i { stack = s' })
          | err result ↦ fail result i
        ])
        c
unfolding Stack.pop
popped-Returns i c v [] h = fail-Returns i c v stack_underflow
popped-Returns i c v (x ∷ s) h = done-Returns _ c (only_stack i c v s (omega arith))

pub pop-Keeps : Keeps StackOps.pop
unfolding StackOps.pop
pop-Keeps = gas_cost-Keeps base _ λ i c v. popped-Returns i c v i.stack v.stack_fits

pub push0-Keeps : (spec : SpecId) → Keeps (StackOps.push0 spec)
unfolding StackOps.push0
push0-Keeps spec =
    check-Keeps spec shanghai _
      (gas_cost-Keeps base _ λ i c v. on_stack-Returns _ i c v (push-Fits 0 i.stack v.stack_fits))

pushed-Returns :
    (i : Interpreter) (c : Contexts)
    → IsValid i c
    → (r : Result Stack.Stack) → Fits r
    → (pointer : List ℕ)
    → Returns
        (elim r as (λ _. Option Interpreter) [
          | err result ↦ fail result i
          | ok s ↦ some (record i { stack = s; instruction_pointer = pointer })
        ])
        c
pushed-Returns i c v (ok s) h pointer =
    done-Returns _ c (with_stack i c v s h i.instruction_result pointer i.function_stack)
pushed-Returns i c v (err e) h pointer = fail-Returns i c v e

pub push-Keeps : (n : ℕ) → Keeps (StackOps.push n)
unfolding StackOps.push
push-Keeps n = gas_cost-Keeps verylow _ λ i c v.
    pushed-Returns i c v _ (push_slice-Fits (take n i.instruction_pointer) i.stack v.stack_fits)
      (drop n i.instruction_pointer)

pub dup-Keeps : (n : ℕ) → 1 ≤ n → Keeps (StackOps.dup n)
unfolding StackOps.dup
dup-Keeps n p =
    gas_cost-Keeps verylow _
      λ i c v. on_unchecked-Returns _ i c v (dup-Fits n i.stack p v.stack_fits)

pub swap-Keeps : (n : ℕ) → 1 ≤ n → Keeps (StackOps.swap n)
unfolding StackOps.swap
swap-Keeps n p =
    gas_cost-Keeps verylow _
      λ i c v. on_unchecked-Returns _ i c v (swap-Fits n i.stack p v.stack_fits)

skipped-Returns :
    (o : Option Interpreter) (c : Contexts) → Returns o c → Returns (skip_immediate o) c
skipped-Returns o c (i, m, e, v) = rw e (
  record i { instruction_pointer = drop 1 i.instruction_pointer },
  m,
  refl,
  with_stack i (set_current m c) v i.stack v.stack_fits i.instruction_result
      (drop 1 i.instruction_pointer) i.function_stack,
)

pub dupn-Keeps : Keeps StackOps.dupn
unfolding StackOps.dupn
dupn-Keeps = require_eof-Keeps _ (
    gas_cost-Keeps verylow _ λ i c v. skipped-Returns _ c (
      on_unchecked-Returns _ i c v (dup-Fits (immediate i + 1) i.stack (omega arith) v.stack_fits)))

pub swapn-Keeps : Keeps StackOps.swapn
unfolding StackOps.swapn
swapn-Keeps = require_eof-Keeps _ (
    gas_cost-Keeps verylow _ λ i c v. skipped-Returns _ c (
      on_unchecked-Returns _ i c v
        (swap-Fits (immediate i + 1) i.stack (omega arith) v.stack_fits)))

pub exchange-Keeps : Keeps StackOps.exchange
unfolding StackOps.exchange
exchange-Keeps = require_eof-Keeps _ (
    gas_cost-Keeps verylow _ λ i c v. skipped-Returns _ c (
      on_unchecked-Returns _ i c v (
        exchange-Fits (immediate i / 16 + 1) (immediate i % 16 + 1) i.stack (omega arith)
          v.stack_fits)))
