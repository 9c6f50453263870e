-- ===== src/Interpreter/Instructions/System.antt =====
-- crates/interpreter/src/instructions/system.rs, without the hash.
use sabvm.Prelude.{
  ℕ, ◌-◌, List, [], ◌∷◌, ◌++◌, some, ◌==◌, ltb, if◌then◌else◌, length, take, drop, replicate, min,
  from_be_bytes,
}
use sabvm.State.{U256, SpecId, byzantium, base_token_id}
use sabvm.Journal.{TokenTransfer}
use sabvm.Gas.{base, verylow, verylowcopy_cost, saturating_add64}
use sabvm.Interpreter.Results.{out_of_offset}
use sabvm.Interpreter.Code.{original_bytes, code_len}
use sabvm.Interpreter.SharedMemory.{set_data, set_memory}
use sabvm.Interpreter.Machine.{
  Interpreter, Instruction, fail, check, require_eof, gas_cost, gas_or_fail, pop3, pop_top1,
  set_top, push_value, as_usize_or_fail, as_usize_saturated, resize_memory,
}
use sabvm.Interpreter.Instructions.Memory.{with_memory}

unfoldable pub address : Instruction
unfolding gas_cost push_value
address = gas_cost base λ i. push_value i.contract.target_address i

unfoldable pub caller : Instruction
unfolding gas_cost push_value
caller = gas_cost base λ i. push_value i.contract.caller i

unfoldable pub codesize : Instruction
unfolding gas_cost push_value code_len
codesize = gas_cost base λ i. push_value (code_len i.contract.bytecode) i

-- What `codecopy` and `calldatacopy` have in common: the bytes come from a place that does not
-- change.
unfoldable pub copy_data : (Interpreter → List ℕ) → Instruction
unfolding pop3 as_usize_or_fail gas_or_fail as_usize_saturated resize_memory
copy_data source = pop3 λ memory_offset data_offset len. as_usize_or_fail len λ len.
    gas_or_fail (verylowcopy_cost len) λ i.
      if len == 0
      then some i
      else as_usize_or_fail memory_offset
          (λ memory_offset. resize_memory memory_offset len λ i.
            with_memory
              (set_data memory_offset (as_usize_saturated data_offset) len (source i)
                i.shared_memory)
              i)
          i

unfoldable pub codecopy : Instruction
unfolding copy_data original_bytes
codecopy = copy_data λ i. original_bytes i.contract.bytecode

-- A word of the input, with zeros after its end.
unfoldable pub input_word : ℕ → List ℕ → U256
input_word offset input =
    let count = if ltb offset (length input) then min 32 (length input - offset) else 0 in
    from_be_bytes (take count (drop offset input) ++ replicate (32 - count) 0)

unfoldable pub calldataload : Instruction
unfolding gas_cost pop_top1 set_top as_usize_saturated input_word
calldataload =
    gas_cost verylow
      (pop_top1 λ offset i. set_top (input_word (as_usize_saturated offset) i.contract.input) i)

unfoldable pub calldatasize : Instruction
unfolding gas_cost push_value
calldatasize = gas_cost base λ i. push_value (length i.contract.input) i

-- `iter().find(|tt| tt.id == BASE_TOKEN_ID).map_or(U256::ZERO, |tt| tt.amount)`
unfoldable pub base_amount : List TokenTransfer → U256
base_amount [] = 0
base_amount (tt ∷ call_values) =
    if tt.id == base_token_id then tt.amount else base_amount call_values

unfoldable pub callvalue : Instruction
unfolding gas_cost push_value base_amount
callvalue = gas_cost base λ i. push_value (base_amount i.contract.call_values) i

unfoldable pub calldatacopy : Instruction
unfolding copy_data
calldatacopy = copy_data λ i. i.contract.input

unfoldable pub returndatasize : SpecId → Instruction
unfolding check gas_cost push_value
returndatasize spec =
    check spec byzantium (gas_cost base λ i. push_value (length i.return_data_buffer) i)

-- `returndatacopy` after the charge for the copy.
unfoldable pub copy_return_data : U256 → U256 → ℕ → Instruction
unfolding as_usize_or_fail as_usize_saturated resize_memory
copy_return_data memory_offset offset len i =
    let data_offset = as_usize_saturated offset in
    let data_end = saturating_add64 data_offset len in
    if ltb (length i.return_data_buffer) data_end
    then fail out_of_offset i
    else if len == 0
    then some i
    else as_usize_or_fail memory_offset
        (λ memory_offset. resize_memory memory_offset len λ i.
          with_memory
            (set_memory memory_offset
              (take (data_end - data_offset) (drop data_offset i.return_data_buffer))
              i.shared_memory)
            i)
        i

unfoldable pub returndatacopy : SpecId → Instruction
unfolding check pop3 as_usize_or_fail gas_or_fail copy_return_data
returndatacopy spec = check spec byzantium (
    pop3 λ memory_offset offset len.
      as_usize_or_fail len
        λ len. gas_or_fail (verylowcopy_cost len) (copy_return_data memory_offset offset len))

unfoldable pub returndataload : Instruction
unfolding require_eof gas_cost pop_top1 as_usize_or_fail set_top
returndataload = require_eof (
    gas_cost verylow (
      pop_top1 λ offset. as_usize_or_fail offset λ offset i.
        if ltb (length i.return_data_buffer) (saturating_add64 offset 32)
        then fail out_of_offset i
        else set_top (from_be_bytes (take 32 (drop offset i.return_data_buffer))) i))

-- `system::gas`
unfoldable pub gas_left : Instruction
unfolding gas_cost push_value
gas_left = gas_cost base λ i. push_value i.gas.remaining i
