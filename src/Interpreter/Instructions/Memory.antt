-- ===== src/Interpreter/Instructions/Memory.antt =====
-- crates/interpreter/src/instructions/memory.rs
use Prim.Native.Nat.{max}
use sabvm.Prelude.{ℕ, ◌%◌, Option, none, some, ◌==◌, if◌then◌else◌}
use sabvm.State.{U256, SpecId, cancun}
use sabvm.Gas.{verylow, base, verylowcopy_cost}
use sabvm.Interpreter.SharedMemory.{SharedMemory, memory_len, get_u256, set_u256, set_byte, copy}
use sabvm.Interpreter.Machine.{
  Instruction, check, gas_cost, gas_or_fail, pop2, pop3, pop_top1, set_top, push_value,
  as_usize_or_fail, resize_memory,
}

-- An access of the memory: a value read, or the memory after a write.
abbrev pub with_value : Option U256 → (U256 → Instruction) → Instruction
with_value none rest i = none
with_value (some value) rest i = rest value i

abbrev pub with_memory : Option SharedMemory → Instruction
with_memory none i = none
with_memory (some m) i = some (record i { shared_memory = m })

unfoldable pub mload : Instruction
unfolding gas_cost pop_top1 as_usize_or_fail resize_memory set_top
mload = gas_cost verylow (
    pop_top1 λ top.
      as_usize_or_fail top λ offset.
        resize_memory offset 32 λ i. with_value (get_u256 offset i.shared_memory) set_top i)

unfoldable pub mstore : Instruction
unfolding gas_cost pop2 as_usize_or_fail resize_memory
mstore = gas_cost verylow (
    pop2 λ offset value.
      as_usize_or_fail offset λ offset.
        resize_memory offset 32 λ i. with_memory (set_u256 offset value i.shared_memory) i)

unfoldable pub mstore8 : Instruction
unfolding gas_cost pop2 as_usize_or_fail resize_memory
mstore8 = gas_cost verylow (
    pop2 λ offset value. as_usize_or_fail offset λ offset.
      resize_memory offset 1 λ i. with_memory (set_byte offset (value % 256) i.shared_memory) i)

unfoldable pub msize : Instruction
unfolding gas_cost push_value
msize = gas_cost base λ i. push_value (memory_len i.shared_memory) i

-- What follows the charge for the copy.
unfoldable pub mcopy_at : U256 → U256 → ℕ → Instruction
unfolding as_usize_or_fail resize_memory
mcopy_at dst src len = as_usize_or_fail dst λ dst.
    as_usize_or_fail src
      λ src. resize_memory (max dst src) len λ i. with_memory (copy dst src len i.shared_memory) i

unfoldable pub mcopy : SpecId → Instruction
unfolding check pop3 as_usize_or_fail gas_or_fail mcopy_at
mcopy spec = check spec cancun (
    pop3 λ dst src len. as_usize_or_fail len λ len.
      gas_or_fail (verylowcopy_cost len) λ i. if len == 0 then some i else mcopy_at dst src len i)
