-- ===== src/Interpreter/Table.antt =====
-- The entries of the opcode table (crates/interpreter/src/opcode.rs) whose instructions work on the
-- stack, the memory and the environment of a frame.
pub mod Entries
use sabvm.Prelude.{ℕ, zero, suc, ◌+◌, List, [], ◌∷◌, ◌++◌, Option, none, some, ◌==◌, if◌then◌else◌}
use sabvm.State.{SpecId, unwrap_or}
use sabvm.Interpreter.Machine.{Instruction}
use sabvm.Interpreter.Instructions.{
  add, mul, sub, div, sdiv, rem, smod, addmod, mulmod, exp, signextend, lt, gt, slt, sgt, eq,
  iszero, bitand, bitor, bitxor, bitnot, byte, shl, shr, sar, mload, mstore, mstore8, msize, mcopy,
  halt, address, caller, callvalue, calldataload, calldatasize, calldatacopy, codesize, codecopy,
  returndatasize, returndatacopy, jump, jumpi, pc, gas_left, jumpdest_or_nop, ret, returndataload,
  revert_frame, invalid, unknown,
}
use sabvm.Interpreter.Instructions.StackOps

abbrev pub Entries : Type 0
Entries = List (ℕ × Instruction)

-- The entries 0x60 to 0x7F, 0x80 to 0x8F and 0x90 to 0x9F: `count` instructions from `first` on.
unfoldable pub numbered : (ℕ → Instruction) → ℕ → ℕ → ℕ → Entries
numbered f opcode n zero = []
numbered f opcode n (suc count) = (opcode, f n) ∷ numbered f (opcode + 1) (n + 1) count

unfoldable pub instruction_table : SpecId → Entries
unfolding numbered
instruction_table spec =
    (0x00, halt)
    ∷ (0x01, add)
    ∷ (0x02, mul)
    ∷ (0x03, sub)
    ∷ (0x04, div)
    ∷ (0x05, sdiv)
    ∷ (0x06, rem)
    ∷ (0x07, smod)
    ∷ (0x08, addmod)
    ∷ (0x09, mulmod)
    ∷ (0x0A, exp spec)
    ∷ (0x0B, signextend)
    ∷ (0x10, lt)
    ∷ (0x11, gt)
    ∷ (0x12, slt)
    ∷ (0x13, sgt)
    ∷ (0x14, eq)
    ∷ (0x15, iszero)
    ∷ (0x16, bitand)
    ∷ (0x17, bitor)
    ∷ (0x18, bitxor)
    ∷ (0x19, bitnot)
    ∷ (0x1A, byte)
    ∷ (0x1B, shl spec)
    ∷ (0x1C, shr spec)
    ∷ (0x1D, sar spec)
    ∷ (0x30, address)
    ∷ (0x33, caller)
    ∷ (0x34, callvalue)
    ∷ (0x35, calldataload)
    ∷ (0x36, calldatasize)
    ∷ (0x37, calldatacopy)
    ∷ (0x38, codesize)
    ∷ (0x39, codecopy)
    ∷ (0x3D, returndatasize spec)
    ∷ (0x3E, returndatacopy spec)
    ∷ (0x50, StackOps.pop)
    ∷ (0x51, mload)
    ∷ (0x52, mstore)
    ∷ (0x53, mstore8)
    ∷ (0x56, jump)
    ∷ (0x57, jumpi)
    ∷ (0x58, pc)
    ∷ (0x59, msize)
    ∷ (0x5A, gas_left)
    ∷ (0x5B, jumpdest_or_nop)
    ∷ (0x5E, mcopy spec)
    ∷ (0x5F, StackOps.push0 spec)
    ∷ (0xE6, StackOps.dupn)
    ∷ (0xE7, StackOps.swapn)
    ∷ (0xE8, StackOps.exchange)
    ∷ (0xF3, ret)
    ∷ (0xF7, returndataload)
    ∷ (0xFD, revert_frame spec)
    ∷ (0xFE, invalid)
    ∷ (numbered StackOps.push 0x60 1 32
        ++ (numbered StackOps.dup 0x80 1 16 ++ numbered StackOps.swap 0x90 1 16))

-- `instruction_table[opcode as usize]`, for the opcodes of these entries.
unfoldable pub fetch : ℕ → Entries → Option Instruction
fetch opcode [] = none
fetch opcode ((code, k) ∷ entries) = if opcode == code then some k else fetch opcode entries

-- The table as a function: `unknown` where it has no entry.
unfoldable pub instruction_at : SpecId → ℕ → Instruction
unfolding fetch instruction_table
instruction_at spec opcode = unwrap_or unknown (fetch opcode (instruction_table spec))
