-- ===== src/Interpreter/Progress/Tabled.antt =====
-- Proofs that every entry of the opcode table moves on.
use sabvm.Prelude.{ℕ, ◌++◌, some, ◌≡◌, arith}
use sabvm.State.{SpecId}
use sabvm.Interpreter.Machine.{Instruction}
use sabvm.Interpreter.Instructions.StackOps
use sabvm.Interpreter.Instructions.Operators.{
  add-IsOperator, addmod-IsOperator, bitand-IsOperator, bitnot-IsOperator, bitor-IsOperator,
  bitxor-IsOperator, byte-IsOperator, div-IsOperator, eq-IsOperator, gt-IsOperator,
  iszero-IsOperator, lt-IsOperator, mul-IsOperator, mulmod-IsOperator, rem-IsOperator,
  sar-IsOperator, sdiv-IsOperator, sgt-IsOperator, shl-IsOperator, shr-IsOperator,
  signextend-IsOperator, slt-IsOperator, smod-IsOperator, sub-IsOperator,
}
use sabvm.Interpreter.Table.{numbered, instruction_table, fetch}
use sabvm.Interpreter.Table.Entries.{
  AllEntries, ◌and◌, numbered-AllEntries, append-AllEntries, fetch-AllEntries,
}
use sabvm.Interpreter.Progress.{Steady}
use sabvm.Interpreter.Progress.Operations.{
  operator-Steady, exp-Steady, push0-Steady, dup-Steady, swap-Steady, dupn-Steady, swapn-Steady,
  exchange-Steady, pop-Steady, push-Steady, mload-Steady, mstore-Steady, mstore8-Steady,
  msize-Steady, mcopy-Steady,
}
use sabvm.Interpreter.Progress.Environment.{
  jump-Steady, jumpi-Steady, jumpdest_or_nop-Steady, pc-Steady, ret-Steady, revert_frame-Steady,
  halt-Steady, invalid-Steady, address-Steady, caller-Steady, codesize-Steady, calldatasize-Steady,
  callvalue-Steady, gas_left-Steady, returndatasize-Steady, calldataload-Steady,
  returndataload-Steady, codecopy-Steady, calldatacopy-Steady, returndatacopy-Steady,
}

instruction_table-AllSteady : (spec : SpecId) → AllEntries (Steady 1) (instruction_table spec)
unfolding instruction_table
instruction_table-AllSteady spec =
    halt-Steady
    and operator-Steady add-IsOperator
    and operator-Steady mul-IsOperator
    and operator-Steady sub-IsOperator
    and operator-Steady div-IsOperator
    and operator-Steady sdiv-IsOperator
    and operator-Steady rem-IsOperator
    and operator-Steady smod-IsOperator
    and operator-Steady addmod-IsOperator
    and operator-Steady mulmod-IsOperator
    and exp-Steady spec
    and operator-Steady signextend-IsOperator
    and operator-Steady lt-IsOperator
    and operator-Steady gt-IsOperator
    and operator-Steady slt-IsOperator
    and operator-Steady sgt-IsOperator
    and operator-Steady eq-IsOperator
    and operator-Steady iszero-IsOperator
    and operator-Steady bitand-IsOperator
    and operator-Steady bitor-IsOperator
    and operator-Steady bitxor-IsOperator
    and operator-Steady bitnot-IsOperator
    and operator-Steady byte-IsOperator
    and operator-Steady (shl-IsOperator spec)
    and operator-Steady (shr-IsOperator spec)
    and operator-Steady (sar-IsOperator spec)
    and address-Steady
    and caller-Steady
    and callvalue-Steady
    and calldataload-Steady
    and calldatasize-Steady
    and calldatacopy-Steady
    and codesize-Steady
    and codecopy-Steady
    and returndatasize-Steady spec
    and returndatacopy-Steady spec
    and pop-Steady
    and mload-Steady
    and mstore-Steady
    and mstore8-Steady
    and jump-Steady
    and jumpi-Steady
    and pc-Steady
    and msize-Steady
    and gas_left-Steady
    and jumpdest_or_nop-Steady
    and mcopy-Steady spec
    and push0-Steady spec
    and dupn-Steady
    and swapn-Steady
    and exchange-Steady
    and ret-Steady
    and returndataload-Steady
    and revert_frame-Steady spec
    and invalid-Steady
    and append-AllEntries (Steady 1) (numbered StackOps.push 0x60 1 32)
        (numbered StackOps.dup 0x80 1 16 ++ numbered StackOps.swap 0x90 1 16)
        (numbered-AllEntries (Steady 1) StackOps.push 0x60 1 32
          λ n p q. push-Steady n (omega arith))
        (append-AllEntries (Steady 1) (numbered StackOps.dup 0x80 1 16)
          (numbered StackOps.swap 0x90 1 16)
          (numbered-AllEntries (Steady 1) StackOps.dup 0x80 1 16 λ n p q. dup-Steady n)
          (numbered-AllEntries (Steady 1) StackOps.swap 0x90 1 16 λ n p q. swap-Steady n))

pub fetch-Steady :
    (spec : SpecId) (opcode : ℕ) (k : Instruction)
    → fetch opcode (instruction_table spec) ≡ some k
    → Steady 1 k
fetch-Steady spec opcode k e =
    fetch-AllEntries (Steady 1) opcode k (instruction_table spec) (instruction_table-AllSteady spec)
      e
