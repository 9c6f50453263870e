-- ===== src/Interpreter/Instructions/Operators.antt =====
-- The instructions that replace their operands by one value.
use sabvm.Prelude.{ℕ, ◌≤◌, arith}
use sabvm.State.{SpecId, constantinople, U256}
use sabvm.Gas.{verylow, low, mid}
use sabvm.Interpreter.Machine.{Instruction, check, gas_cost, pop_top1, pop_top2, pop_top3, set_top}
use sabvm.Interpreter.Instructions.{
  add, mul, sub, div, sdiv, rem, smod, addmod, mulmod, signextend, lt, gt, slt, sgt, eq, iszero,
  bitand, bitor, bitxor, bitnot, byte, shl, shr, sar,
}

-- The cost is charged first; an instruction of a later fork fails before it.
pub data IsOperator : Instruction → Type 0 where
  one_operand :
      (cost : ℕ) (f : U256 → U256)
      → 1 ≤ cost
      → IsOperator (gas_cost cost (pop_top1 λ x. set_top (f x)))
  two_operands :
      (cost : ℕ) (f : U256 → U256 → U256)
      → 1 ≤ cost
      → IsOperator (gas_cost cost (pop_top2 λ x y. set_top (f x y)))
  three_operands :
      (cost : ℕ) (f : U256 → U256 → U256 → U256)
      → 1 ≤ cost
      → IsOperator (gas_cost cost (pop_top3 λ x y z. set_top (f x y z)))
  since : (spec min : SpecId) (k : Instruction) → IsOperator k → IsOperator (check spec min k)

pub add-IsOperator : IsOperator add
unfolding add
add-IsOperator = two_operands verylow _ (omega arith)

pub mul-IsOperator : IsOperator mul
unfolding mul
mul-IsOperator = two_operands low _ (omega arith)

pub sub-IsOperator : IsOperator sub
unfolding sub
sub-IsOperator = two_operands verylow _ (omega arith)

pub div-IsOperator : IsOperator div
unfolding div
div-IsOperator = two_operands low _ (omega arith)

pub sdiv-IsOperator : IsOperator sdiv
unfolding sdiv
sdiv-IsOperator = two_operands low _ (omega arith)

pub rem-IsOperator : IsOperator rem
unfolding rem
rem-IsOperator = two_operands low _ (omega arith)

pub smod-IsOperator : IsOperator smod
unfolding smod
smod-IsOperator = two_operands low _ (omega arith)

pub signextend-IsOperator : IsOperator signextend
unfolding signextend
signextend-IsOperator = two_operands low _ (omega arith)

pub lt-IsOperator : IsOperator lt
unfolding lt
lt-IsOperator = two_operands verylow _ (omega arith)

pub gt-IsOperator : IsOperator gt
unfolding gt
gt-IsOperator = two_operands verylow _ (omega arith)

pub slt-IsOperator : IsOperator slt
unfolding slt
slt-IsOperator = two_operands verylow _ (omega arith)

pub sgt-IsOperator : IsOperator sgt
unfolding sgt
sgt-IsOperator = two_operands verylow _ (omega arith)

pub eq-IsOperator : IsOperator eq
unfolding eq
eq-IsOperator = two_operands verylow _ (omega arith)

pub bitand-IsOperator : IsOperator bitand
unfolding bitand
bitand-IsOperator = two_operands verylow _ (omega arith)

pub bitor-IsOperator : IsOperator bitor
unfolding bitor
bitor-IsOperator = two_operands verylow _ (omega arith)

pub bitxor-IsOperator : IsOperator bitxor
unfolding bitxor
bitxor-IsOperator = two_operands verylow _ (omega arith)

pub byte-IsOperator : IsOperator byte
unfolding byte
byte-IsOperator = two_operands verylow _ (omega arith)

pub iszero-IsOperator : IsOperator iszero
unfolding iszero
iszero-IsOperator = one_operand verylow _ (omega arith)

pub bitnot-IsOperator : IsOperator bitnot
unfolding bitnot
bitnot-IsOperator = one_operand verylow _ (omega arith)

pub addmod-IsOperator : IsOperator addmod
unfolding addmod
addmod-IsOperator = three_operands mid _ (omega arith)

pub mulmod-IsOperator : IsOperator mulmod
unfolding mulmod
mulmod-IsOperator = three_operands mid _ (omega arith)

pub shl-IsOperator : (spec : SpecId) → IsOperator (shl spec)
unfolding shl
shl-IsOperator spec = since spec constantinople _ (two_operands verylow _ (omega arith))

pub shr-IsOperator : (spec : SpecId) → IsOperator (shr spec)
unfolding shr
shr-IsOperator spec = since spec constantinople _ (two_operands verylow _ (omega arith))

pub sar-IsOperator : (spec : SpecId) → IsOperator (sar spec)
unfolding sar
sar-IsOperator spec = since spec constantinople _ (two_operands verylow _ (omega arith))
