-- ===== src/Interpreter/Machine.antt =====
-- `Interpreter` (crates/interpreter/src/interpreter.rs), as far as the instructions on the stack and
-- the memory read it, and the macros of crates/interpreter/src/instructions/macros.rs. A macro that
-- returns early takes what follows it as an argument. `none` is an access out of bounds.
use sabvm.Prelude.{
  ℕ, ◌+◌, ◌-◌, ◌*◌, ◌/◌, ◌%◌, ◌^◌, Bool, not, ◌&&◌, ◌||◌, List, [], ◌∷◌, Option, none, some, ◌==◌,
  ltb, if◌then◌else◌, u64_mod, length,
}
use sabvm.State.{U256, SpecId, enabled}
use sabvm.Gas.{Gas, record_cost, num_words, memory_gas, saturating_add64}
use sabvm.Interpreter.Results.{
  InstructionResult, out_of_gas, memory_oog, invalid_operand_oog, stack_underflow, not_activated,
  eof_opcode_disabled_in_legacy,
}
use sabvm.Interpreter.Stack.{Stack, Result, ok, err, FunctionStack, push}
use sabvm.Interpreter.Code.{Contract}
use sabvm.Interpreter.SharedMemory.{SharedMemory, memory_len, current_expansion_cost, resize}

pub record InterpreterResult : Type 0 where
  pub result : InstructionResult
  pub output : List ℕ
  pub gas : Gas

-- Without the actions that ask for a call or a creation.
pub data InterpreterAction : Type 0 where
  no_action : InterpreterAction
  return_action : InterpreterResult → InterpreterAction

-- The instruction pointer stands for the bytes of the code from it on.
pub record Interpreter : Type 0 where
  pub instruction_pointer : List ℕ
  pub gas : Gas
  pub contract : Contract
  pub instruction_result : InstructionResult
  pub bytecode : List ℕ
  pub is_eof : Bool
  pub is_eof_init : Bool
  pub shared_memory : SharedMemory
  pub stack : Stack
  pub function_stack : FunctionStack
  pub return_data_buffer : List ℕ
  pub is_static : Bool
  pub next_action : InterpreterAction

abbrev pub Instruction : Type 0
Instruction = Interpreter → Option Interpreter

abbrev pub fail : InstructionResult → Instruction
fail result i = some (record i { instruction_result = result })

unfoldable pub require_eof : Instruction → Instruction
require_eof rest i = if i.is_eof then rest i else fail eof_opcode_disabled_in_legacy i

unfoldable pub check : SpecId → SpecId → Instruction → Instruction
unfolding enabled
check spec min rest i = if enabled spec min then rest i else fail not_activated i

-- `gas!`
unfoldable pub gas_cost : ℕ → Instruction → Instruction
unfolding record_cost
gas_cost cost rest i =
    let (gas, enough) = record_cost cost i.gas in
    if enough then rest (record i { gas = gas }) else fail out_of_gas i

unfoldable pub gas_or_fail : Option ℕ → Instruction → Instruction
unfolding gas_cost
gas_or_fail none rest i = fail out_of_gas i
gas_or_fail (some cost) rest i = gas_cost cost rest i

-- `pop!`: the length is tested first, and then the values are popped unchecked. A value that is
-- not there then is an access out of bounds, `none`.
unfoldable pub pop1 : (U256 → Instruction) → Instruction
pop1 rest i =
    if ltb (length i.stack) 1
    then fail stack_underflow i
    else elim i.stack [ x ∷ s ↦ rest x (record i { stack = s }) | [] ↦ none ]

unfoldable pub pop2 : (U256 → U256 → Instruction) → Instruction
pop2 rest i =
    if ltb (length i.stack) 2
    then fail stack_underflow i
    else elim i.stack [ x ∷ y ∷ s ↦ rest x y (record i { stack = s }) | _ ↦ none ]

unfoldable pub pop3 : (U256 → U256 → U256 → Instruction) → Instruction
pop3 rest i =
    if ltb (length i.stack) 3
    then fail stack_underflow i
    else elim i.stack [ x ∷ y ∷ z ∷ s ↦ rest x y z (record i { stack = s }) | _ ↦ none ]

-- `pop_top!`: the last of the values stays on the stack, as a reference.
unfoldable pub pop_top1 : (U256 → Instruction) → Instruction
pop_top1 rest i =
    if ltb (length i.stack) 1
    then fail stack_underflow i
    else elim i.stack [ x ∷ s ↦ rest x i | [] ↦ none ]

unfoldable pub pop_top2 : (U256 → U256 → Instruction) → Instruction
pop_top2 rest i =
    if ltb (length i.stack) 2
    then fail stack_underflow i
    else elim i.stack [ x ∷ y ∷ s ↦ rest x y (record i { stack = y ∷ s }) | _ ↦ none ]

unfoldable pub pop_top3 : (U256 → U256 → U256 → Instruction) → Instruction
pop_top3 rest i =
    if ltb (length i.stack) 3
    then fail stack_underflow i
    else elim i.stack [ x ∷ y ∷ z ∷ s ↦ rest x y z (record i { stack = z ∷ s }) | _ ↦ none ]

-- An assignment through the reference that `pop_top!` gives.
abbrev pub replace_top : U256 → Stack → Stack
replace_top value [] = []
replace_top value (x ∷ s) = value ∷ s

unfoldable pub set_top : U256 → Instruction
set_top value i = some (record i { stack = replace_top value i.stack })

-- `if let Err(result) = ... { interpreter.instruction_result = result; }`
unfoldable pub on_stack : Result Stack → Instruction
on_stack (ok s) i = some (record i { stack = s })
on_stack (err result) i = fail result i

-- The same for a function of the stack that reads unchecked: an access out of bounds is `none`.
unfoldable pub on_unchecked : Option (Result Stack) → Instruction
unfolding on_stack
on_unchecked none i = none
on_unchecked (some result) i = on_stack result i

-- `push!`
unfoldable pub push_value : U256 → Instruction
unfolding on_stack
push_value value i = on_stack (push value i.stack) i

-- `as_u64_saturated!` and `as_usize_saturated!`: the upper three limbs are tested.
unfoldable pub as_usize_saturated : U256 → ℕ
as_usize_saturated v =
    if v / 2 ^ 64 % u64_mod == 0 && v / 2 ^ 128 % u64_mod == 0 && v / 2 ^ 192 % u64_mod == 0
    then v % u64_mod
    else u64_mod - 1

-- `as_usize_or_fail_ret!`, with the reason that it fails for.
unfoldable pub as_usize_or_fail_ret : InstructionResult → U256 → (ℕ → Instruction) → Instruction
as_usize_or_fail_ret reason v rest i =
    if ltb (u64_mod - 1) (v % u64_mod)
      || not (v / 2 ^ 64 % u64_mod == 0)
      || not (v / 2 ^ 128 % u64_mod == 0)
      || not (v / 2 ^ 192 % u64_mod == 0)
    then fail reason i
    else rest (v % u64_mod) i

unfoldable pub as_usize_or_fail : U256 → (ℕ → Instruction) → Instruction
unfolding as_usize_or_fail_ret
as_usize_or_fail = as_usize_or_fail_ret invalid_operand_oog

-- The function `resize_memory` (interpreter.rs): whether there was enough gas, and what is left.
unfoldable pub grow_memory : ℕ → SharedMemory → Gas → SharedMemory × Gas × Bool
unfolding record_cost
grow_memory new_size m gas =
    let new_words = num_words new_size in
    let cost = (memory_gas new_words + u64_mod - current_expansion_cost m) % u64_mod in
    let (gas', success) = record_cost cost gas in
    (if success then resize (new_words * 32) m else m, gas', success)

-- `resize_memory!`
unfoldable pub resize_memory : ℕ → ℕ → Instruction → Instruction
unfolding grow_memory
resize_memory offset len rest i =
    let new_size = saturating_add64 offset len in
    let (m, gas, success) = grow_memory new_size i.shared_memory i.gas in
    if ltb (memory_len i.shared_memory) new_size
    then if success then rest (record i { shared_memory = m; gas = gas }) else fail memory_oog i
    else rest i
