-- ===== src/Interpreter/SignedWords.antt =====
-- Words read as signed numbers (crates/interpreter/src/instructions/i256.rs).
pub mod Integers
pub mod Division
pub mod Remainder
use sabvm.Prelude.{
  ℕ, ◌+◌, ◌-◌, ◌/◌, ◌%◌, ◌^◌, Bool, true, false, not, ◌&&◌, ◌||◌, ◌==◌, ltb, if◌then◌else◌,
  u256_mod,
}
use sabvm.State.{U256}
use Prim.Native.Nat.{compare, Ordering}

pub data Sign : Type 0 where
  minus : Sign
  zero_sign : Sign
  plus : Sign

abbrev pub min_negative_value : U256
min_negative_value = 2 ^ 255

-- `val.bit(255)`
unfoldable pub i256_sign : U256 → Sign
i256_sign val = if val / 2 ^ 255 % 2 == 1 then minus else if val == 0 then zero_sign else plus

unfoldable pub two_compl : U256 → U256
two_compl op = (u256_mod - op) % u256_mod

abbrev pub is_minus : Sign → Bool
is_minus minus = true
is_minus zero_sign = false
is_minus plus = false

abbrev pub is_zero_sign : Sign → Bool
is_zero_sign minus = false
is_zero_sign zero_sign = true
is_zero_sign plus = false

-- The value after the call, and the sign that it returns.
unfoldable pub i256_sign_compl : U256 → U256 × Sign
unfolding i256_sign two_compl
i256_sign_compl val =
    let sign = i256_sign val in (if is_minus sign then two_compl val else val, sign)

-- The mask leaves the lower 255 bits.
unfoldable pub u256_remove_sign : U256 → U256
u256_remove_sign val = val % 2 ^ 255

-- The derived order of the signs, by their discriminants.
abbrev pub sign_rank : Sign → ℕ
sign_rank minus = 0
sign_rank zero_sign = 1
sign_rank plus = 2

unfoldable pub i256_cmp : U256 → U256 → Ordering
unfolding i256_sign
i256_cmp first second =
    let o = compare (sign_rank (i256_sign first)) (sign_rank (i256_sign second)) in
    elim o [
      | Ordering.eq ↦ compare first second
      | Ordering.lt ↦ Ordering.lt
      | Ordering.gt ↦ Ordering.gt
    ]

-- `i256_div` after the two calls of `i256_sign_compl`.
unfoldable pub div_signed : U256 × Sign → U256 × Sign → U256
unfolding two_compl u256_remove_sign
div_signed (first, first_sign) (second, second_sign) =
    let d = u256_remove_sign (first / second) in
    if is_zero_sign second_sign
    then 0
    else if first == min_negative_value && second == 1
    then two_compl min_negative_value
    else if (is_minus first_sign && not (is_minus second_sign))
        || (is_minus second_sign && not (is_minus first_sign))
    then two_compl d
    else d

unfoldable pub i256_div : U256 → U256 → U256
unfolding div_signed
i256_div first second = div_signed (i256_sign_compl first) (i256_sign_compl second)

-- `i256_mod` after the two calls of `i256_sign_compl`.
unfoldable pub mod_signed : U256 × Sign → U256 × Sign → U256
unfolding two_compl u256_remove_sign
mod_signed (first, first_sign) (second, second_sign) =
    let r = u256_remove_sign (first % second) in
    if is_zero_sign first_sign
    then 0
    else if is_zero_sign second_sign
    then 0
    else if is_minus first_sign
    then two_compl r
    else r

unfoldable pub i256_mod : U256 → U256 → U256
unfolding mod_signed
i256_mod first second = mod_signed (i256_sign_compl first) (i256_sign_compl second)
