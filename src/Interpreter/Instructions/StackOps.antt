-- ===== src/Interpreter/Instructions/StackOps.antt =====
-- crates/interpreter/src/instructions/stack.rs. The bytecode is padded by the analysis, so that an
-- immediate is read without a test of the bounds; a byte that is missing here reads as zero.
use sabvm.Prelude.{ℕ, ◌+◌, ◌/◌, ◌%◌, Option, none, some, take, drop, get_elem?}
use sabvm.State.{SpecId, shanghai, unwrap_or}
use sabvm.Gas.{verylow, base}
use sabvm.Interpreter.Stack
use sabvm.Interpreter.Stack.{ok, err, push_slice}
use sabvm.Interpreter.Machine.{
  Interpreter, Instruction, fail, check, require_eof, gas_cost, on_stack, on_unchecked,
}

unfoldable pub pop : Instruction
unfolding gas_cost
pop = gas_cost base λ i. elim (Stack.pop i.stack) [
  | ok (x, s) ↦ some (record i { stack = s })
  | err result ↦ fail result i
]

unfoldable pub push0 : SpecId → Instruction
unfolding check gas_cost on_stack
push0 spec = check spec shanghai (gas_cost base λ i. on_stack (Stack.push 0 i.stack) i)

unfoldable pub push : ℕ → Instruction
unfolding gas_cost
push n = gas_cost verylow λ i. elim (push_slice (take n i.instruction_pointer) i.stack) [
  | err result ↦ fail result i
  | ok s ↦ some (record i { stack = s; instruction_pointer = drop n i.instruction_pointer })
]

unfoldable pub dup : ℕ → Instruction
unfolding gas_cost on_unchecked
dup n = gas_cost verylow λ i. on_unchecked (Stack.dup n i.stack) i

unfoldable pub swap : ℕ → Instruction
unfolding gas_cost on_unchecked
swap n = gas_cost verylow λ i. on_unchecked (Stack.swap n i.stack) i

-- The immediate, and the step over it, which an error of the stack does not prevent.
abbrev pub immediate : Interpreter → ℕ
immediate i = unwrap_or 0 (get_elem? i.instruction_pointer 0)

abbrev pub skip_immediate : Option Interpreter → Option Interpreter
skip_immediate none = none
skip_immediate (some i) = some (record i { instruction_pointer = drop 1 i.instruction_pointer })

unfoldable pub dupn : Instruction
unfolding require_eof gas_cost on_unchecked
dupn =
    require_eof
      (gas_cost verylow λ i. skip_immediate (on_unchecked (Stack.dup (immediate i + 1) i.stack) i))

unfoldable pub swapn : Instruction
unfolding require_eof gas_cost on_unchecked
swapn =
    require_eof
      (gas_cost verylow λ i. skip_immediate (on_unchecked (Stack.swap (immediate i + 1) i.stack) i))

-- `imm >> 4` and `imm & 0x0F`
unfoldable pub exchange : Instruction
unfolding require_eof gas_cost on_unchecked
exchange = require_eof (
    gas_cost verylow λ i.
      skip_immediate
        (on_unchecked (Stack.exchange (immediate i / 16 + 1) (immediate i % 16 + 1) i.stack) i))
