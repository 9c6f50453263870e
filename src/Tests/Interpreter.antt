-- ===== src/Tests/Interpreter.antt =====
-- The interpreter's stack, memory and instructions at concrete inputs.
use sabvm.Prelude.{
  ℕ, ◌+◌, ◌-◌, ◌*◌, ◌/◌, ◌%◌, ◌^◌, ◌<◌, true, false, List, [], ◌∷◌, ◌++◌, Option, none, some, ◌≡◌,
  refl, arith, leb, replicate, be_bytes, ltb, ◌==◌, if◌then◌else◌, length,
}
use sabvm.Prelude.Int.{pos}
use mathlib.Core.List.{reverse}
use sabvm.State.{cancun, enabled}
use sabvm.Gas.{memory_gas, memory_gas_for_len}
use sabvm.Interpreter.Results.{continue, stack_underflow, stack_overflow}
use sabvm.Interpreter.Stack.{ok, err, dup, exchange, push_slice, stack_limit}
use sabvm.Interpreter.Stack.Slices.{chunk_words, push_slice-chunk_words}
use sabvm.Interpreter.SharedMemory.{SharedMemory, set_u256, get_u256}
use sabvm.Interpreter.SharedMemory.Contexts.{Contexts, flat, shared, with_current, map_option}
use sabvm.Interpreter.SharedMemory.Frames.{
  Script, end, step, call, resize_to, set_at, copy_within, run_script, perform_script, demand,
}
use sabvm.Interpreter.SharedMemory.Isolation.{run_script-perform_script}
use sabvm.Interpreter.SharedMemory.Words.{get_u256-set_u256}
use sabvm.Interpreter.SignedWords.{i256_div, i256_mod}
use sabvm.Interpreter.SignedWords.Integers.{as_signed, as_word}
use sabvm.Interpreter.SignedWords.Division.{quot, i256_div-quot}
use sabvm.Interpreter.SignedWords.Remainder.{rem, i256_mod-rem}
use sabvm.Interpreter.Machine.{Interpreter, no_action}
use sabvm.Interpreter.Code.{Contract, legacy_raw, new_contract, code_bytes}
use sabvm.Interpreter.Instructions.{mstore}
use sabvm.Interpreter.Instructions.Bitwise.{arithmetic_shifted, sar}
use sabvm.Interpreter.Instructions.Bitwise.Sar.{floor_div, sar-floor_div}
use sabvm.Interpreter.Table.{instruction_table, fetch}
use sabvm.Interpreter.Safety.{IsValid, Returns}
use sabvm.Interpreter.Safety.Tabled.{fetch-Returns}

-- A frame with a caller: it calls another one between two writes.
abbrev frames : Contexts
frames = record { current = 9 ∷ []; callers = (5 ∷ 6 ∷ []) ∷ [] }

abbrev callee : Script
callee = step (resize_to 32) (step (set_at 5 (7 ∷ [])) end)

abbrev script : Script
script =
    step (resize_to 4) (step (set_at 0 (1 ∷ 2 ∷ [])) (call callee (step (copy_within 2 0 2) end)))

perform_script-script : perform_script script (9 ∷ []) ≡ some (1 ∷ 2 ∷ 1 ∷ 2 ∷ [])
unfolding perform_script sabvm.Interpreter.SharedMemory.Frames.perform
    sabvm.Interpreter.SharedMemory.Contexts.write sabvm.Interpreter.SharedMemory.resize_buffer
    sabvm.Interpreter.SharedMemory.Frames.read sabvm.Interpreter.SharedMemory.overwrite
perform_script-script = refl

run_script-perform_script_example :
    run_script script (shared frames)
    ≡ map_option (with_current frames) (perform_script script (9 ∷ []))
unfolding flat demand
run_script-perform_script_example = run_script-perform_script script frames (omega arith)

abbrev minus_seven : ℕ
minus_seven = 2 ^ 256 - 7

i256_div-minus_seven : i256_div minus_seven 2 ≡ 2 ^ 256 - 3
unfolding i256_div sabvm.Interpreter.SignedWords.i256_sign_compl
i256_div-minus_seven = refl

i256_div-quot_example :
    i256_div minus_seven 2
    ≡ (if 2 == 0 then 0 else as_word (quot (as_signed minus_seven) (as_signed 2)))
i256_div-quot_example = i256_div-quot minus_seven 2 (omega arith) (omega arith)

i256_mod-minus_seven : i256_mod minus_seven 2 ≡ 2 ^ 256 - 1
unfolding i256_mod sabvm.Interpreter.SignedWords.i256_sign_compl
i256_mod-minus_seven = refl

i256_mod-rem_example :
    i256_mod minus_seven 2
    ≡ (if 2 == 0 then 0 else as_word (rem (as_signed minus_seven) (as_signed 2)))
i256_mod-rem_example = i256_mod-rem minus_seven 2 (omega arith) (omega arith)

arithmetic_shifted-minus_seven : arithmetic_shifted 1 minus_seven ≡ 2 ^ 256 - 4
unfolding arithmetic_shifted
arithmetic_shifted-minus_seven = refl

push_slice-two_bytes : push_slice (1 ∷ 2 ∷ []) (5 ∷ []) ≡ ok (258 ∷ 5 ∷ [])
unfolding push_slice sabvm.Prelude.from_be_bytes
push_slice-two_bytes = refl

push_slice-chunk_words_example : push_slice (1 ∷ 2 ∷ []) (5 ∷ []) ≡ (
    if ltb stack_limit (1 + (2 + 31) / 32)
    then err stack_overflow
    else ok (reverse (chunk_words 2 (1 ∷ 2 ∷ [])) ++ (5 ∷ [])))
push_slice-chunk_words_example = push_slice-chunk_words (1 ∷ 2 ∷ []) (5 ∷ []) (omega arith)

dup-empty : dup 1 [] ≡ some (err stack_underflow)
unfolding dup
dup-empty = refl

exchange-three : exchange 1 1 (1 ∷ 2 ∷ 3 ∷ []) ≡ some (ok (1 ∷ 3 ∷ 2 ∷ []))
unfolding exchange
exchange-three = refl

abbrev no_code : Contract
no_code = new_contract [] (legacy_raw []) 10 20 []

-- `mstore` with the operands 64 and 7 on a machine that has no memory yet.
abbrev machine : Interpreter
machine = record {
  instruction_pointer = code_bytes no_code.bytecode;
  gas = record { limit = 1000; remaining = 900; refunded = pos 0 };
  instruction_result = continue;
  contract = no_code;
  bytecode = code_bytes no_code.bytecode;
  is_eof = false;
  is_eof_init = false;
  shared_memory = shared (record { current = []; callers = (5 ∷ 6 ∷ []) ∷ [] });
  stack = 64 ∷ 7 ∷ [];
  function_stack = record { return_stack = []; current_code_idx = 0 };
  return_data_buffer = [];
  is_static = false;
  next_action = no_action;
}

abbrev callers : Contexts
callers = record { current = []; callers = (5 ∷ 6 ∷ []) ∷ [] }

machine-IsValid : IsValid machine callers
unfolding flat memory_gas_for_len memory_gas
machine-IsValid = record {
  stack_fits = omega arith;
  is_shared = refl;
  callers_fit = omega arith;
  affordable = omega arith;
}

fetch-mstore : fetch 0x52 (instruction_table cancun) ≡ some mstore
unfolding fetch instruction_table
fetch-mstore = refl

fetch-Returns_example : Returns (mstore machine) callers
fetch-Returns_example =
    fetch-Returns cancun 0x52 mstore machine callers fetch-mstore machine-IsValid

-- A frame with 40 bytes of memory.
abbrev zeros : Contexts
zeros = record { current = replicate 40 0; callers = (5 ∷ 6 ∷ []) ∷ [] }

abbrev written : SharedMemory
written = shared (record {
  current = replicate 4 0 ++ (be_bytes 32 258 ++ replicate 4 0);
  callers = (5 ∷ 6 ∷ []) ∷ [];
})

set_u256-written : set_u256 4 258 (shared zeros) ≡ some written
unfolding set_u256 be_bytes sabvm.Interpreter.SharedMemory.copy_into
    sabvm.Interpreter.SharedMemory.context_memory shared sabvm.Interpreter.SharedMemory.overwrite
set_u256-written = refl

get_u256-set_u256_example : get_u256 4 written ≡ some 258
get_u256-set_u256_example = get_u256-set_u256 4 258 zeros written (omega arith) set_u256-written

-- The machine with another stack.
abbrev shifting : Interpreter
shifting = record machine { stack = 1 ∷ minus_seven ∷ 9 ∷ [] }

sar_active : enabled cancun sabvm.State.constantinople ≡ true
unfolding enabled
sar_active = refl

sar-floor_div_example :
    sar cancun shifting
    ≡ some (record shifting {
      gas = record (machine.gas) { remaining = 900 - 3 };
      stack = as_word (floor_div (as_signed minus_seven) (2 ^ 1)) ∷ 9 ∷ [];
    })
sar-floor_div_example =
    sar-floor_div cancun shifting 1 minus_seven (9 ∷ []) sar_active (omega arith) refl (omega arith)
      (omega arith)
