-- ===== src/Interpreter/Run/Ends.antt =====
-- Proofs about the loop: in legacy code it reads no byte behind the end, and its gas ends it.
use sabvm.Prelude.{
  ℕ, ◌+◌, ◌<◌, ◌^◌, Bool, true, List, [], some, ◌≡◌, ◌≢◌, inl, inr, refl, sym, ap, length, arith,
  Option-cases, some_inj, subst,
}
use sabvm.State.{Address, SpecId, unwrap_or}
use sabvm.Journal.{TokenTransfer}
use sabvm.Gas.{memory_gas_for_len}
use sabvm.Interpreter.Results.{continue}
use sabvm.Interpreter.Code.{legacy_raw, new_contract, is_valid_jump}
use sabvm.Interpreter.Code.Jumps.{IsByteList, get_elem?-lt}
use sabvm.Interpreter.Code.Padding.{is_valid_jump-IsDestination}
use sabvm.Interpreter.SharedMemory.{SharedMemory}
use sabvm.Interpreter.SharedMemory.Contexts.{Contexts, flat, shared, set_current}
use sabvm.Interpreter.Machine.{Interpreter, Instruction, no_action}
use sabvm.Interpreter.Instructions.{halt, unknown}
use sabvm.Interpreter.Table.{instruction_table, fetch, instruction_at}
use sabvm.Interpreter.Safety.{IsValid, Keeps}
use sabvm.Interpreter.Safety.Control.{unknown-Keeps}
use sabvm.Interpreter.Safety.Tabled.{fetch-Returns}
use sabvm.Interpreter.Progress.{Steady}
use sabvm.Interpreter.Progress.Environment.{unknown-Steady}
use sabvm.Interpreter.Progress.Tabled.{fetch-Steady}
use sabvm.Interpreter.Run.{new_interpreter, stopped, run_loop, final_action, action, run}
use sabvm.Interpreter.Run.Steps.{IsSound, IsRunning, run_loop-Stops}

first : (spec : SpecId) → instruction_at spec 0 ≡ halt
unfolding instruction_at
first spec = refl

-- The table of the modelled instructions; the other opcodes have no instruction in it.
pub instruction_at-IsSound : (spec : SpecId) → IsSound (instruction_at spec)
unfolding instruction_at
instruction_at-IsSound spec = record {
  keeps = λ opcode. elim (Option-cases (fetch opcode (instruction_table spec))) [
    | inl e ↦ subst Keeps (sym (ap (unwrap_or unknown) e)) unknown-Keeps
    | inr (k, e) ↦
        subst Keeps (sym (ap (unwrap_or unknown) e)) λ i c v. fetch-Returns spec opcode k i c e v
  ];
  steady = λ opcode. elim (Option-cases (fetch opcode (instruction_table spec))) [
    | inl e ↦ subst (Steady 1) (sym (ap (unwrap_or unknown) e)) unknown-Steady
    | inr (k, e) ↦ subst (Steady 1) (sym (ap (unwrap_or unknown) e)) (fetch-Steady spec opcode k e)
  ];
  halts = first spec;
}

no_memory : memory_gas_for_len 0 ≡ 0
unfolding memory_gas_for_len
no_memory = refl

run-action :
    (table : ℕ → Instruction) (fuel : ℕ) (memory : SharedMemory) (i : Interpreter)
    {i' : Interpreter}
    → run_loop table fuel (record i { next_action = no_action; shared_memory = memory })
      ≡ stopped i'
    → run table fuel memory i ≡ action (final_action i')
unfolding run
run-action table fuel memory i e = rw (e, run) refl

-- A frame that runs legacy code with an empty memory of its own ends: the loop reads no byte behind
-- the end of the padded code and makes no access out of bounds of the stack or the memory, one turn
-- more than there are units of gas, and one to stop, are enough, and `run` returns an action. The
-- stack is within its limit then, and the memories of the callers are as they were. Each instruction
-- of the table keeps a valid machine valid and spends gas where it does not stop, and the first one
-- halts; the code is a list of bytes, and the gas and the callers' memories are within the bounds.
pub run-Ends :
    (table : ℕ → Instruction)
    → IsSound table
    → (code input : List ℕ) (target_address caller : Address) (call_values : List TokenTransfer)
    → IsByteList code
    → (gas_limit : ℕ) (is_static : Bool) (callers : List (List ℕ)) (i : Interpreter)
    → new_interpreter
        (new_contract input (legacy_raw code) target_address caller call_values)
        gas_limit
        is_static
      ≡ some i
    → let c : Contexts = record { current = []; callers = callers } in
      length (flat callers) < 2 ^ 40
      → gas_limit < 2 ^ 54
      → (fuel : ℕ) → gas_limit + 1 < fuel
      → (i' : Interpreter) × (m : List ℕ) × (run table fuel (shared c) i ≡ action (final_action i'))
        × (i'.instruction_result ≢ continue)
        × IsValid i' (set_current m c)
unfolding new_interpreter new_contract
run-Ends table sound code input target_address caller call_values bytes gas_limit is_static callers
      i e fits limit fuel enough =
    let c : Contexts = record { current = []; callers = callers } in
    let contract = new_contract input (legacy_raw code) target_address caller call_values in
    let p = some_inj e in
    let j = record i { next_action = no_action; shared_memory = shared c } in
    let v : IsValid j c = record {
      stack_fits = omega (arith, ap (λ k. length k.stack) p);
      is_shared = refl;
      callers_fit = fits;
      affordable = omega (arith, limit, no_memory, ap (λ k. k.gas.remaining) p);
    } in
    let inside = λ (pos : ℕ) (h : is_valid_jump pos contract ≡ true).
      let (to, from) =
        is_valid_jump-IsDestination code input target_address caller call_values pos bytes in
      let (reached, there) = to h in get_elem?-lt code pos there in
    let r : IsRunning contract code j c = record {
      valid = v;
      is_legacy = sym (ap (λ k. k.is_eof) p);
      same_contract = sym (ap (λ k. k.contract) p);
      same_code = sym (ap (λ k. k.bytecode) p);
      position = 0;
      is_inside = omega arith;
      is_there = sym (ap (λ k. k.instruction_pointer) p);
    } in
    let (i', m, ends, halts, w) =
      run_loop-Stops contract code inside table sound fuel j c v
        (λ q. (r, omega (arith, enough, ap (λ k. k.gas.remaining) p))) (omega arith) in
    (i', m, run-action table fuel (shared c) i ends, halts, w)
