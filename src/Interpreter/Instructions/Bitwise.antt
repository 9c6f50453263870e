-- ===== src/Interpreter/Instructions/Bitwise.antt =====
-- crates/interpreter/src/instructions/bitwise.rs
pub mod Sar
use Prim.Native.Nat.{bit_and, bit_or, bit_xor}
use sabvm.Prelude.{
  ℕ, ◌+◌, ◌-◌, ◌*◌, ◌/◌, ◌%◌, ◌^◌, Bool, true, false, ◌==◌, ltb, leb, if◌then◌else◌, u256_mod,
}
use Prim.Native.Nat.{Ordering}
use sabvm.State.{U256, SpecId, constantinople}
use sabvm.Gas.{verylow}
use sabvm.Interpreter.Machine.{
  Instruction, check, gas_cost, pop_top1, pop_top2, set_top, as_usize_saturated,
}
use sabvm.Interpreter.SignedWords.{i256_cmp}

-- `U256::from` of a Boolean
abbrev pub from_bool : Bool → U256
from_bool true = 1
from_bool false = 0

unfoldable pub lt : Instruction
unfolding gas_cost pop_top2 set_top
lt = gas_cost verylow (pop_top2 λ op1 op2. set_top (from_bool (ltb op1 op2)))

unfoldable pub gt : Instruction
unfolding gas_cost pop_top2 set_top
gt = gas_cost verylow (pop_top2 λ op1 op2. set_top (from_bool (ltb op2 op1)))

abbrev pub is_less : Ordering → Bool
is_less Ordering.lt = true
is_less Ordering.eq = false
is_less Ordering.gt = false

abbrev pub is_greater : Ordering → Bool
is_greater Ordering.lt = false
is_greater Ordering.eq = false
is_greater Ordering.gt = true

unfoldable pub slt : Instruction
unfolding gas_cost pop_top2 set_top
slt = gas_cost verylow (pop_top2 λ op1 op2. set_top (from_bool (is_less (i256_cmp op1 op2))))

unfoldable pub sgt : Instruction
unfolding gas_cost pop_top2 set_top
sgt = gas_cost verylow (pop_top2 λ op1 op2. set_top (from_bool (is_greater (i256_cmp op1 op2))))

unfoldable pub eq : Instruction
unfolding gas_cost pop_top2 set_top
eq = gas_cost verylow (pop_top2 λ op1 op2. set_top (from_bool (op1 == op2)))

unfoldable pub iszero : Instruction
unfolding gas_cost pop_top1 set_top
iszero = gas_cost verylow (pop_top1 λ op1. set_top (from_bool (op1 == 0)))

unfoldable pub bitand : Instruction
unfolding gas_cost pop_top2 set_top
bitand = gas_cost verylow (pop_top2 λ op1 op2. set_top (bit_and op1 op2))

unfoldable pub bitor : Instruction
unfolding gas_cost pop_top2 set_top
bitor = gas_cost verylow (pop_top2 λ op1 op2. set_top (bit_or op1 op2))

unfoldable pub bitxor : Instruction
unfolding gas_cost pop_top2 set_top
bitxor = gas_cost verylow (pop_top2 λ op1 op2. set_top (bit_xor op1 op2))

unfoldable pub bitnot : Instruction
unfolding gas_cost pop_top1 set_top
bitnot = gas_cost verylow (pop_top1 λ op1. set_top (u256_mod - 1 - op1))

-- The bytes of a word are counted from the highest.
unfoldable pub byte_of : ℕ → U256 → U256
byte_of o1 op2 = if ltb o1 32 then op2 / 2 ^ (8 * (31 - o1)) % 256 else 0

unfoldable pub byte : Instruction
unfolding gas_cost pop_top2 set_top byte_of
byte = gas_cost verylow (pop_top2 λ op1 op2. set_top (byte_of (as_usize_saturated op1) op2))

unfoldable pub shifted_left : ℕ → U256 → U256
shifted_left shift op2 = if ltb shift 256 then op2 * 2 ^ shift % u256_mod else 0

unfoldable pub shl : SpecId → Instruction
unfolding check gas_cost pop_top2 set_top shifted_left
shl spec =
    check spec constantinople
      (gas_cost verylow (pop_top2 λ op1 op2. set_top (shifted_left (as_usize_saturated op1) op2)))

unfoldable pub shifted_right : ℕ → U256 → U256
shifted_right shift op2 = if ltb shift 256 then op2 / 2 ^ shift else 0

unfoldable pub shr : SpecId → Instruction
unfolding check gas_cost pop_top2 set_top shifted_right
shr spec =
    check spec constantinople
      (gas_cost verylow (pop_top2 λ op1 op2. set_top (shifted_right (as_usize_saturated op1) op2)))

-- `U256::MAX << (256 - shift)` is zero at the shift by 256 that `shift` = 0 makes.
unfoldable pub arithmetic_shifted : ℕ → U256 → U256
arithmetic_shifted shift op2 =
    let negative = op2 / 2 ^ 255 % 2 == 1 in
    let mask = (u256_mod - 1) * 2 ^ (256 - shift) % u256_mod in
    if leb 256 shift
    then if negative then u256_mod - 1 else 0
    else if negative
    then bit_or (op2 / 2 ^ shift) mask
    else op2 / 2 ^ shift

unfoldable pub sar : SpecId → Instruction
unfolding check gas_cost pop_top2 set_top arithmetic_shifted
sar spec = check spec constantinople (
    gas_cost verylow
      (pop_top2 λ op1 op2. set_top (arithmetic_shifted (as_usize_saturated op1) op2)))
