-- ===== src/Interpreter/Run.antt =====
-- The loop of the interpreter (crates/interpreter/src/interpreter.rs). The instruction table is a
-- parameter of it, as in the source.
pub mod Steps
pub mod Ends
use sabvm.Prelude.{
  ℕ, zero, suc, Bool, true, false, List, [], ◌∷◌, Option, none, some, if◌then◌else◌,
}
use sabvm.Prelude.Int.{pos}
use sabvm.Gas.{Gas}
use sabvm.Interpreter.Results.{InstructionResult, continue}
use sabvm.Interpreter.Code.{Contract, code_bytes, is_execution_ready}
use sabvm.Interpreter.SharedMemory.{SharedMemory, new_memory}
use sabvm.Interpreter.Machine.{
  Interpreter, Instruction, InterpreterAction, no_action, return_action,
}

-- `Interpreter::new`: it panics if the code is not analysed. The format is that of legacy code.
unfoldable pub new_interpreter : Contract → ℕ → Bool → Option Interpreter
unfolding is_execution_ready code_bytes
new_interpreter contract gas_limit is_static =
    if is_execution_ready contract.bytecode
    then some (record {
      instruction_pointer = code_bytes contract.bytecode;
      gas = record { limit = gas_limit; remaining = gas_limit; refunded = pos 0 };
      contract = contract;
      instruction_result = continue;
      bytecode = code_bytes contract.bytecode;
      is_eof = false;
      is_eof_init = false;
      shared_memory = new_memory;
      stack = [];
      function_stack = record { return_stack = []; current_code_idx = 0 };
      return_data_buffer = [];
      is_static = is_static;
      next_action = no_action;
    })
    else none

-- `none` is a read behind the end of the code.
unfoldable pub step : (ℕ → Instruction) → Instruction
step instruction_table i = elim i.instruction_pointer [
  | [] ↦ none
  | opcode ∷ rest ↦ instruction_table opcode (record i { instruction_pointer = rest })
]

-- `instruction_result == InstructionResult::Continue`
abbrev pub goes_on : InstructionResult → Bool
goes_on continue = true
goes_on other = false

pub data Loop : Type 0 where
  stopped : Interpreter → Loop
  out_of_bounds : Loop
  out_of_fuel : Loop

-- The main loop.
unfoldable pub run_loop : (ℕ → Instruction) → ℕ → Interpreter → Loop
unfolding step
run_loop instruction_table zero i = out_of_fuel
run_loop instruction_table (suc fuel) i = elim (goes_on i.instruction_result) [
  | false ↦ stopped i
  | true ↦ elim (step instruction_table i) [
    | none ↦ out_of_bounds
    | some i' ↦ run_loop instruction_table fuel i'
  ]
]

-- The action that `run` returns for the machine at the end of the loop.
unfoldable pub final_action : Interpreter → InterpreterAction
final_action i = elim i.next_action [
  | return_action result ↦ return_action result
  | no_action ↦ return_action (record { result = i.instruction_result; output = []; gas = i.gas })
]

pub data RunOutcome : Type 0 where
  action : InterpreterAction → RunOutcome
  no_end : RunOutcome

-- `Interpreter::run`
unfoldable pub run : (ℕ → Instruction) → ℕ → SharedMemory → Interpreter → RunOutcome
unfolding run_loop final_action
run instruction_table fuel shared_memory i =
    elim (run_loop instruction_table fuel
      (record i { next_action = no_action; shared_memory = shared_memory })) [
        | stopped i' ↦ action (final_action i')
        | out_of_bounds ↦ no_end
        | out_of_fuel ↦ no_end
      ]
