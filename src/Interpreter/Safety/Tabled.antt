-- ===== src/Interpreter/Safety/Tabled.antt =====
-- Proofs about every entry of the opcode table.
use sabvm.Prelude.{ℕ, ◌++◌, some, ◌≡◌}
use sabvm.State.{SpecId}
use sabvm.Interpreter.SharedMemory.Contexts.{Contexts}
use sabvm.Interpreter.Machine.{Interpreter, Instruction}
use sabvm.Interpreter.Instructions.StackOps
use sabvm.Interpreter.Instructions.Operators.{
  add-IsOperator, mul-IsOperator, sub-IsOperator, div-IsOperator, sdiv-IsOperator, rem-IsOperator,
  smod-IsOperator, addmod-IsOperator, mulmod-IsOperator, signextend-IsOperator, lt-IsOperator,
  gt-IsOperator, slt-IsOperator, sgt-IsOperator, eq-IsOperator, iszero-IsOperator,
  bitand-IsOperator, bitor-IsOperator, bitxor-IsOperator, bitnot-IsOperator, byte-IsOperator,
  shl-IsOperator, shr-IsOperator, sar-IsOperator,
}
use sabvm.Interpreter.Safety.Operators.{operator-Keeps, exp-Keeps}
use sabvm.Interpreter.Table.Entries.{
  AllEntries, ◌and◌, numbered-AllEntries, append-AllEntries, fetch-AllEntries,
}
use sabvm.Interpreter.Table.{numbered, instruction_table, fetch}
use sabvm.Interpreter.Safety.{IsValid, Returns, Keeps}
use sabvm.Interpreter.Safety.Machine.{
  mload-Keeps, mstore-Keeps, mstore8-Keeps, msize-Keeps, mcopy-Keeps,
}
use sabvm.Interpreter.Safety.Control.{
  jump-Keeps, jumpi-Keeps, pc-Keeps, jumpdest_or_nop-Keeps, ret-Keeps, revert_frame-Keeps,
  halt-Keeps, invalid-Keeps,
}
use sabvm.Interpreter.Safety.System.{
  address-Keeps, caller-Keeps, callvalue-Keeps, calldataload-Keeps, calldatasize-Keeps,
  calldatacopy-Keeps, codesize-Keeps, codecopy-Keeps, returndatasize-Keeps, returndatacopy-Keeps,
  gas_left-Keeps, returndataload-Keeps,
}
use sabvm.Interpreter.Safety.Stacks.{
  pop-Keeps, push0-Keeps, push-Keeps, dup-Keeps, swap-Keeps, dupn-Keeps, swapn-Keeps,
  exchange-Keeps,
}

instruction_table-AllKeep : (spec : SpecId) → AllEntries Keeps (instruction_table spec)
unfolding instruction_table
instruction_table-AllKeep spec =
    halt-Keeps
    and operator-Keeps add-IsOperator
    and operator-Keeps mul-IsOperator
    and operator-Keeps sub-IsOperator
    and operator-Keeps div-IsOperator
    and operator-Keeps sdiv-IsOperator
    and operator-Keeps rem-IsOperator
    and operator-Keeps smod-IsOperator
    and operator-Keeps addmod-IsOperator
    and operator-Keeps mulmod-IsOperator
    and exp-Keeps spec
    and operator-Keeps signextend-IsOperator
    and operator-Keeps lt-IsOperator
    and operator-Keeps gt-IsOperator
    and operator-Keeps slt-IsOperator
    and operator-Keeps sgt-IsOperator
    and operator-Keeps eq-IsOperator
    and operator-Keeps iszero-IsOperator
    and operator-Keeps bitand-IsOperator
    and operator-Keeps bitor-IsOperator
    and operator-Keeps bitxor-IsOperator
    and operator-Keeps bitnot-IsOperator
    and operator-Keeps byte-IsOperator
    and operator-Keeps (shl-IsOperator spec)
    and operator-Keeps (shr-IsOperator spec)
    and operator-Keeps (sar-IsOperator spec)
    and address-Keeps
    and caller-Keeps
    and callvalue-Keeps
    and calldataload-Keeps
    and calldatasize-Keeps
    and calldatacopy-Keeps
    and codesize-Keeps
    and codecopy-Keeps
    and returndatasize-Keeps spec
    and returndatacopy-Keeps spec
    and pop-Keeps
    and mload-Keeps
    and mstore-Keeps
    and mstore8-Keeps
    and jump-Keeps
    and jumpi-Keeps
    and pc-Keeps
    and msize-Keeps
    and gas_left-Keeps
    and jumpdest_or_nop-Keeps
    and mcopy-Keeps spec
    and push0-Keeps spec
    and dupn-Keeps
    and swapn-Keeps
    and exchange-Keeps
    and ret-Keeps
    and returndataload-Keeps
    and revert_frame-Keeps spec
    and invalid-Keeps
    and append-AllEntries Keeps (numbered StackOps.push 0x60 1 32)
        (numbered StackOps.dup 0x80 1 16 ++ numbered StackOps.swap 0x90 1 16)
        (numbered-AllEntries Keeps StackOps.push 0x60 1 32 λ n p q. push-Keeps n)
        (append-AllEntries Keeps (numbered StackOps.dup 0x80 1 16)
          (numbered StackOps.swap 0x90 1 16)
          (numbered-AllEntries Keeps StackOps.dup 0x80 1 16 λ n p q. dup-Keeps n p)
          (numbered-AllEntries Keeps StackOps.swap 0x90 1 16 λ n p q. swap-Keeps n p))

-- Each instruction that the table has for an opcode, from a valid machine, returns, which means
-- that its unchecked reads, copies and swaps of stack elements and its accesses to the memory are
-- all within bounds, and the machine is valid after it, with the stack within its limit and the
-- callers' memories as they were.
pub fetch-Returns :
    (spec : SpecId) (opcode : ℕ) (k : Instruction) (i : Interpreter) (c : Contexts)
    → fetch opcode (instruction_table spec) ≡ some k
    → IsValid i c
    → Returns (k i) c
fetch-Returns spec opcode k i c e v =
    fetch-AllEntries Keeps opcode k (instruction_table spec) (instruction_table-AllKeep spec) e i c
      v
