-- ===== src/Interpreter/Progress/Environment.antt =====
-- Proofs that the instructions for control flow and on the environment of a frame move on.
use sabvm.Prelude.{
  ℕ, ◌-◌, ◌≤◌, List, [], Option, none, some, ◌≢◌, refl, ltb, ◌==◌, length, take, drop, arith,
  Bool-cases, inl, inr,
}
use sabvm.State.{SpecId, U256, byzantium}
use sabvm.Gas
use sabvm.Gas.{base, mid, high, verylow, verylowcopy_cost, saturating_add64}
use sabvm.Interpreter.Results.{
  InstructionResult, continue, invalid_jump, return, revert, out_of_offset,
}
use sabvm.Interpreter.Code.{is_valid_jump, original_bytes, code_len}
use sabvm.Interpreter.SharedMemory.{slice, set_data, set_memory}
use sabvm.Interpreter.Machine.{Interpreter, gas_cost, push_value, as_usize_saturated}
use sabvm.Interpreter.Instructions.{
  jump_to, jump_inner, jump, jumpi, jumpdest_or_nop, program_counter, pc, returned, return_inner,
  ret, revert_frame, halt, invalid, unknown, address, caller, codesize, copy_data, codecopy,
  input_word, calldataload, calldatasize, base_amount, callvalue, calldatacopy, returndatasize,
  copy_return_data, returndatacopy, returndataload, gas_left,
}
use sabvm.Interpreter.Progress.{
  Steps, Steady, gas_cost-Steady, gas_or_fail-Steady, check-Steady, require_eof-Steady,
  as_usize_or_fail-Steady, as_usize_or_fail_ret-Steady, pop1-Steady, pop2-Steady, pop3-Steady,
  pop_top1-Steady, set_top-Steady, resize_memory-Steady, some-Steps, none-Steps, done-Steps,
  if-Steps, fail-Steps,
}
use sabvm.Interpreter.Progress.Operations.{
  push_value-Steady, with_memory-Steps, verylowcopy_cost-pos,
}

jump_to-Steady : (target : ℕ) → Steady 0 (jump_to target)
unfolding jump_to
jump_to-Steady target i l = elim (Bool-cases (is_valid_jump target i.contract)) [
  | inl e ↦ rw e (
      some-Steps 0 i (record i { instruction_pointer = drop target i.bytecode })
        (record {
          same_contract = refl;
          same_bytecode = refl;
          same_format = refl;
          spends = λ q. omega arith;
          moves = λ q. inr (target, e, refl);
        }))
  | inr e ↦ rw e (fail-Steps 0 invalid_jump (λ q. cc) i)
]

jump_inner-Steady : (target : U256) → Steady 0 (jump_inner target)
unfolding jump_inner
jump_inner-Steady target =
    as_usize_or_fail_ret-Steady 0 invalid_jump (λ q. cc) target _ jump_to-Steady

pub jump-Steady : Steady 1 jump
unfolding jump
jump-Steady = gas_cost-Steady mid _ (omega arith) (pop1-Steady 0 _ jump_inner-Steady)

pub jumpi-Steady : Steady 1 jumpi
unfolding jumpi
jumpi-Steady = gas_cost-Steady high _ (omega arith) (
    pop2-Steady 0 _
      λ target cond i l. if-Steps 0 i (cond == 0) (done-Steps i) (jump_inner-Steady target i l))

pub jumpdest_or_nop-Steady : Steady 1 jumpdest_or_nop
unfolding jumpdest_or_nop
jumpdest_or_nop-Steady = gas_cost-Steady Gas.jumpdest _ (omega arith) λ i l. done-Steps i

pub pc-Steady : Steady 1 pc
unfolding pc
pc-Steady =
    gas_cost-Steady base _ (omega arith) λ i l. push_value-Steady (program_counter i - 1) i l

returned-Steps :
    (result : InstructionResult)
    → result ≢ continue
    → (o : Option (List ℕ)) (i : Interpreter) → Steps 1 i (returned result o i)
unfolding returned
returned-Steps result h none i = none-Steps 1 i
returned-Steps result h (some output) i = some-Steps 1 i _ (record {
  same_contract = refl;
  same_bytecode = refl;
  same_format = refl;
  spends = λ e. absurd (h e);
  moves = λ e. absurd (h e);
})

return_inner-Steady :
    (result : InstructionResult) → result ≢ continue → Steady 1 (return_inner result)
unfolding return_inner
return_inner-Steady result h = pop2-Steady 1 _ λ offset len.
    as_usize_or_fail-Steady 1 len _ λ len i l.
      if-Steps 1 i (len == 0) (returned-Steps result h (some []) i) (
        as_usize_or_fail-Steady 1 offset _
          (λ offset.
            resize_memory-Steady 1 offset len _
              λ i l. returned-Steps result h (slice offset len i.shared_memory) i)
          i l)

pub ret-Steady : Steady 1 ret
unfolding ret
ret-Steady = return_inner-Steady return (λ e. cc)

pub revert_frame-Steady : (spec : SpecId) → Steady 1 (revert_frame spec)
unfolding revert_frame
revert_frame-Steady spec = check-Steady 1 spec byzantium _ (return_inner-Steady revert (λ e. cc))

pub halt-Steady : Steady 1 halt
unfolding halt
halt-Steady i l = fail-Steps 1 _ (λ e. cc) i

pub invalid-Steady : Steady 1 invalid
unfolding invalid
invalid-Steady i l = fail-Steps 1 _ (λ e. cc) i

pub unknown-Steady : Steady 1 unknown
unfolding unknown
unknown-Steady i l = fail-Steps 1 _ (λ e. cc) i

-- An instruction that pushes what it reads of the machine.
pushes :
    (cost : ℕ)
    → 1 ≤ cost
    → (f : Interpreter → U256) → Steady 1 (gas_cost cost λ i. push_value (f i) i)
pushes cost h f = gas_cost-Steady cost _ h λ i l. push_value-Steady (f i) i l

pub address-Steady : Steady 1 address
unfolding address
address-Steady = pushes base (omega arith) λ i. i.contract.target_address

pub caller-Steady : Steady 1 caller
unfolding caller
caller-Steady = pushes base (omega arith) λ i. i.contract.caller

pub codesize-Steady : Steady 1 codesize
unfolding codesize
codesize-Steady = pushes base (omega arith) λ i. code_len i.contract.bytecode

pub calldatasize-Steady : Steady 1 calldatasize
unfolding calldatasize
calldatasize-Steady = pushes base (omega arith) λ i. length i.contract.input

pub callvalue-Steady : Steady 1 callvalue
unfolding callvalue
callvalue-Steady = pushes base (omega arith) λ i. base_amount i.contract.call_values

pub gas_left-Steady : Steady 1 gas_left
unfolding gas_left
gas_left-Steady = pushes base (omega arith) λ i. i.gas.remaining

pub returndatasize-Steady : (spec : SpecId) → Steady 1 (returndatasize spec)
unfolding returndatasize
returndatasize-Steady spec =
    check-Steady 1 spec byzantium _ (pushes base (omega arith) λ i. length i.return_data_buffer)

pub calldataload-Steady : Steady 1 calldataload
unfolding calldataload
calldataload-Steady = gas_cost-Steady verylow _ (omega arith) (
    pop_top1-Steady 0 _
      λ offset i l. set_top-Steady (input_word (as_usize_saturated offset) i.contract.input) i l)

pub returndataload-Steady : Steady 1 returndataload
unfolding returndataload
returndataload-Steady = require_eof-Steady 1 _

copy_data-Steady : (source : Interpreter → List ℕ) → Steady 1 (copy_data source)
unfolding copy_data
copy_data-Steady source = pop3-Steady 1 _ λ memory_offset data_offset len.
    as_usize_or_fail-Steady 1 len _ λ len.
      gas_or_fail-Steady (verylowcopy_cost len) _ (verylowcopy_cost-pos len) λ i l.
        if-Steps 0 i (len == 0) (done-Steps i) (
          as_usize_or_fail-Steady 0 memory_offset _
            (λ memory_offset. resize_memory-Steady 0 memory_offset len _ λ i l.
              with_memory-Steps
                (set_data memory_offset (as_usize_saturated data_offset) len (source i)
                  i.shared_memory)
                i)
            i l)

pub codecopy-Steady : Steady 1 codecopy
unfolding codecopy
codecopy-Steady = copy_data-Steady λ i. original_bytes i.contract.bytecode

pub calldatacopy-Steady : Steady 1 calldatacopy
unfolding calldatacopy
calldatacopy-Steady = copy_data-Steady λ i. i.contract.input

copy_return_data-Steady :
    (memory_offset offset : U256) (len : ℕ) → Steady 0 (copy_return_data memory_offset offset len)
unfolding copy_return_data
copy_return_data-Steady memory_offset offset len i l =
    let data_offset = as_usize_saturated offset in
    let data_end = saturating_add64 data_offset len in
    if-Steps 0 i (ltb (length i.return_data_buffer) data_end)
      (fail-Steps 0 out_of_offset (λ e. cc) i)
      (if-Steps 0 i (len == 0) (done-Steps i) (
        as_usize_or_fail-Steady 0 memory_offset _
          (λ memory_offset. resize_memory-Steady 0 memory_offset len _ λ i l.
            with_memory-Steps
              (set_memory memory_offset
                (take (data_end - data_offset) (drop data_offset i.return_data_buffer))
                i.shared_memory)
              i)
          i l))

pub returndatacopy-Steady : (spec : SpecId) → Steady 1 (returndatacopy spec)
unfolding returndatacopy
returndatacopy-Steady spec = check-Steady 1 spec byzantium _ (
    pop3-Steady 1 _ λ memory_offset offset len. as_usize_or_fail-Steady 1 len _ λ len.
      gas_or_fail-Steady (verylowcopy_cost len) _ (verylowcopy_cost-pos len)
        (copy_return_data-Steady memory_offset offset len))
