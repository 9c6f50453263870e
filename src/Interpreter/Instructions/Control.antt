-- ===== src/Interpreter/Instructions/Control.antt =====
-- crates/interpreter/src/instructions/control.rs, without the instructions of the object format.
use sabvm.Prelude.{ℕ, ◌-◌, List, [], Option, none, some, ◌==◌, if◌then◌else◌, length, drop}
use sabvm.State.{U256, SpecId, byzantium}
use sabvm.Gas.{base, mid, high, jumpdest}
use sabvm.Interpreter.Results.{
  InstructionResult, invalid_jump, return, revert, stop, invalid_fe_opcode, opcode_not_found,
}
use sabvm.Interpreter.Code.{is_valid_jump}
use sabvm.Interpreter.SharedMemory.{slice}
use sabvm.Interpreter.Machine.{
  Interpreter, Instruction, return_action, fail, check, gas_cost, pop1, pop2, push_value,
  as_usize_or_fail, as_usize_or_fail_ret, resize_memory,
}

unfoldable pub jump_to : ℕ → Instruction
jump_to target i =
    if is_valid_jump target i.contract
    then some (record i { instruction_pointer = drop target i.bytecode })
    else fail invalid_jump i

unfoldable pub jump_inner : U256 → Instruction
unfolding as_usize_or_fail_ret jump_to
jump_inner target = as_usize_or_fail_ret invalid_jump target jump_to

unfoldable pub jump : Instruction
unfolding gas_cost pop1 jump_inner
jump = gas_cost mid (pop1 jump_inner)

unfoldable pub jumpi : Instruction
unfolding gas_cost pop2 jump_inner
jumpi = gas_cost high (pop2 λ target cond i. if cond == 0 then some i else jump_inner target i)

unfoldable pub jumpdest_or_nop : Instruction
unfolding gas_cost
jumpdest_or_nop = gas_cost jumpdest some

-- `Interpreter::program_counter`
unfoldable pub program_counter : Interpreter → ℕ
program_counter i = length i.bytecode - length i.instruction_pointer

unfoldable pub pc : Instruction
unfolding gas_cost push_value program_counter
pc = gas_cost base λ i. push_value (program_counter i - 1) i

-- The end of `return_inner`, for the output that was read.
unfoldable pub returned : InstructionResult → Option (List ℕ) → Instruction
returned result none i = none
returned result (some output) i = some (record i {
  instruction_result = result;
  next_action = return_action (record { result = result; output = output; gas = i.gas });
})

unfoldable pub return_inner : InstructionResult → Instruction
unfolding pop2 as_usize_or_fail resize_memory returned
return_inner result = pop2 λ offset len. as_usize_or_fail len λ len i.
    if len == 0
    then returned result (some []) i
    else as_usize_or_fail offset
        (λ offset.
          resize_memory offset len λ i. returned result (slice offset len i.shared_memory) i)
        i

unfoldable pub ret : Instruction
unfolding return_inner
ret = return_inner return

-- `revert`
unfoldable pub revert_frame : SpecId → Instruction
unfolding check return_inner
revert_frame spec = check spec byzantium (return_inner revert)

-- `stop`
unfoldable pub halt : Instruction
halt = fail stop

unfoldable pub invalid : Instruction
invalid = fail invalid_fe_opcode

unfoldable pub unknown : Instruction
unknown = fail opcode_not_found
