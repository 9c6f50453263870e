-- ===== src/Interpreter/Instructions/Arithmetic.antt =====
-- crates/interpreter/src/instructions/arithmetic.rs. The operators of `U256` wrap around.
use Prim.Native.Nat.{bit_and, bit_or}
use sabvm.Prelude.{
  ◌+◌, ◌-◌, ◌*◌, ◌/◌, ◌%◌, ◌^◌, ◌==◌, ltb, if◌then◌else◌, u64_mod, u256_mod, wrapping_add,
  wrapping_sub,
}
use sabvm.State.{U256, SpecId}
use sabvm.Gas.{verylow, low, mid, exp_cost}
use sabvm.Interpreter.Machine.{Instruction, gas_cost, gas_or_fail, pop_top2, pop_top3, set_top}
use sabvm.Interpreter.SignedWords.{i256_div, i256_mod}

unfoldable pub add : Instruction
unfolding gas_cost pop_top2 set_top
add = gas_cost verylow (pop_top2 λ op1 op2. set_top (wrapping_add op1 op2))

unfoldable pub wrapping_mul : U256 → U256 → U256
wrapping_mul a b = a * b % u256_mod

unfoldable pub mul : Instruction
unfolding gas_cost pop_top2 set_top wrapping_mul
mul = gas_cost low (pop_top2 λ op1 op2. set_top (wrapping_mul op1 op2))

unfoldable pub sub : Instruction
unfolding gas_cost pop_top2 set_top
sub = gas_cost verylow (pop_top2 λ op1 op2. set_top (wrapping_sub op1 op2))

-- A division by zero leaves the zero where it is.
unfoldable pub div : Instruction
unfolding gas_cost pop_top2 set_top
div = gas_cost low (pop_top2 λ op1 op2. set_top (if op2 == 0 then op2 else op1 / op2))

unfoldable pub sdiv : Instruction
unfolding gas_cost pop_top2 set_top
sdiv = gas_cost low (pop_top2 λ op1 op2. set_top (i256_div op1 op2))

unfoldable pub rem : Instruction
unfolding gas_cost pop_top2 set_top
rem = gas_cost low (pop_top2 λ op1 op2. set_top (if op2 == 0 then op2 else op1 % op2))

unfoldable pub smod : Instruction
unfolding gas_cost pop_top2 set_top
smod = gas_cost low (pop_top2 λ op1 op2. set_top (i256_mod op1 op2))

-- `U256::add_mod` and `mul_mod` do not wrap around, and give zero for the modulus zero.
unfoldable pub addmod : Instruction
unfolding gas_cost pop_top3 set_top
addmod = gas_cost mid (pop_top3 λ op1 op2 op3. set_top (if op3 == 0 then 0 else (op1 + op2) % op3))

unfoldable pub mulmod : Instruction
unfolding gas_cost pop_top3 set_top
mulmod = gas_cost mid (pop_top3 λ op1 op2 op3. set_top (if op3 == 0 then 0 else op1 * op2 % op3))

-- The gas is charged after the pop.
unfoldable pub exp : SpecId → Instruction
unfolding gas_or_fail pop_top2 set_top
exp spec = pop_top2 λ op1 op2. gas_or_fail (exp_cost spec op2) (set_top (op1 ^ op2 % u256_mod))

-- `*x | !mask` or `*x & mask`, for the mask of the bits below the sign bit of the extended value.
unfoldable pub sign_extended : U256 → U256 → U256
sign_extended ext x =
    let bit_index = 8 * (ext % u64_mod) + 7 in
    let mask = 2 ^ bit_index % u256_mod - 1 in
    if ltb ext 31
    then if x / 2 ^ bit_index % 2 == 1 then bit_or x (u256_mod - 1 - mask) else bit_and x mask
    else x

unfoldable pub signextend : Instruction
unfolding gas_cost pop_top2 set_top sign_extended
signextend = gas_cost low (pop_top2 λ ext x. set_top (sign_extended ext x))
