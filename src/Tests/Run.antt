-- ===== src/Tests/Run.antt =====
-- The interpreter's loop on a concrete program.
use sabvm.Prelude.{ℕ, true, false, List, [], ◌∷◌, some, ◌≡◌, ◌≢◌, ◌↔◌, refl, arith}
use sabvm.Prelude.Int.{pos}
use sabvm.State.{cancun}
use sabvm.Interpreter.Results.{continue}
use sabvm.Interpreter.Code.{Contract, legacy_raw, new_contract, is_valid_jump, code_bytes}
use sabvm.Interpreter.Code.Jumps.{IsByteList, IsDestination}
use sabvm.Interpreter.Code.Padding.{is_valid_jump-IsDestination}
use sabvm.Interpreter.SharedMemory.{new_memory}
use sabvm.Interpreter.SharedMemory.Contexts.{Contexts, flat, shared, set_current}
use sabvm.Interpreter.Machine.{Interpreter, no_action}
use sabvm.Interpreter.Table.{instruction_at}
use sabvm.Interpreter.Safety.{IsValid}
use sabvm.Interpreter.Run.{new_interpreter, run, action, final_action}
use sabvm.Interpreter.Run.Ends.{instruction_at-IsSound, run-Ends}

-- JUMPDEST, PUSH1 0, JUMP: a loop that only the gas ends. The byte 0x5B after PUSH1 is no
-- destination.
abbrev looping : List ℕ
looping = 0x5B ∷ 0x60 ∷ 0x00 ∷ 0x56 ∷ 0x60 ∷ 0x5B ∷ []

looping-IsByteList : IsByteList looping
looping-IsByteList =
    (omega arith, (omega arith, (omega arith, (omega arith, (omega arith, (omega arith, tt))))))

abbrev loop_contract : Contract
loop_contract = new_contract [] (legacy_raw looping) 10 20 []

data_is_no_destination : is_valid_jump 5 loop_contract ≡ false
unfolding is_valid_jump new_contract
data_is_no_destination = refl

is_valid_jump-IsDestination_example :
    (is_valid_jump 0 (new_contract [] (legacy_raw looping) 10 20 []) ≡ true)
    ↔ IsDestination looping 0
is_valid_jump-IsDestination_example =
    is_valid_jump-IsDestination looping [] 10 20 [] 0 looping-IsByteList

abbrev started : Interpreter
started = record {
  instruction_pointer = code_bytes loop_contract.bytecode;
  gas = record { limit = 1000; remaining = 1000; refunded = pos 0 };
  contract = loop_contract;
  instruction_result = continue;
  bytecode = code_bytes loop_contract.bytecode;
  is_eof = false;
  is_eof_init = false;
  shared_memory = new_memory;
  stack = [];
  function_stack = record { return_stack = []; current_code_idx = 0 };
  return_data_buffer = [];
  is_static = false;
  next_action = no_action;
}

new_interpreter-started : new_interpreter loop_contract 1000 false ≡ some started
unfolding new_interpreter new_contract
new_interpreter-started = refl

abbrev callers : List (List ℕ)
callers = (5 ∷ 6 ∷ []) ∷ []

abbrev fresh : Contexts
fresh = record { current = []; callers = callers }

run-Ends_example :
    (i' : Interpreter) × (m : List ℕ) × (run (instruction_at cancun) 1002 (shared fresh) started
      ≡ action (final_action i'))
    × (i'.instruction_result ≢ continue)
    × IsValid i' (set_current m fresh)
unfolding flat
run-Ends_example =
    run-Ends (instruction_at cancun) (instruction_at-IsSound cancun) looping [] 10 20 []
      looping-IsByteList 1000 false callers started new_interpreter-started (omega arith)
      (omega arith) 1002 (omega arith)
