-- ===== src/Interpreter/Stack.antt =====
-- `Stack` (crates/interpreter/src/interpreter/stack.rs) and `FunctionStack`
-- (crates/interpreter/src/function_stack.rs). The top of a stack stands first.
pub mod Slices
use sabvm.Prelude.{
  ℕ, zero, suc, ◌+◌, ◌-◌, ◌*◌, ◌/◌, ◌^◌, Bool, List, [], ◌∷◌, ◌++◌, Option, none, some, ◌==◌, leb,
  ltb, if◌then◌else◌, length, take, drop, set, get_elem?, from_be_bytes, ⊤,
}
use mathlib.Core.List.{reverse}
use sabvm.State.{U256}
use sabvm.Interpreter.Results.{InstructionResult, stack_underflow, stack_overflow}

pub data Result (A : Type 0) : Type 0 where
  ok : A → Result A
  err : InstructionResult → Result A

abbrev pub Stack : Type 0
Stack = List U256

abbrev pub stack_limit : ℕ
stack_limit = 1024

-- `pop`
unfoldable pub pop : Stack → Result (U256 × Stack)
pop [] = err stack_underflow
pop (x ∷ s) = ok (x, s)

unfoldable pub push : U256 → Stack → Result Stack
push value s = if length s == stack_limit then err stack_overflow else ok (value ∷ s)

unfoldable pub peek : ℕ → Stack → Result U256
peek no_from_top s = elim (get_elem? s no_from_top) [ some x ↦ ok x | none ↦ err stack_underflow ]

-- The element under `n - 1` others is copied on top, through a pointer: `none` is a read out of
-- bounds, or the `n` that `assume!` rules out.
unfoldable pub dup : ℕ → Stack → Option (Result Stack)
dup n s =
    if n == 0
    then none
    else if ltb (length s) n
    then some (err stack_underflow)
    else if ltb stack_limit (length s + 1)
    then some (err stack_overflow)
    else elim (get_elem? s (n - 1)) [ some x ↦ some (ok (x ∷ s)) | none ↦ none ]

-- `swap_nonoverlapping` of two elements, unchecked: `none` where one of them is out of bounds.
unfoldable pub swap_elements : ℕ → ℕ → Stack → Option (Result Stack)
swap_elements i j s = elim (get_elem? s i) [
  | none ↦ none
  | some x ↦ elim (get_elem? s j) [ none ↦ none | some y ↦ some (ok (set (set s i y) j x)) ]
]

-- `assume!` rules out that `m` is zero.
unfoldable pub exchange : ℕ → ℕ → Stack → Option (Result Stack)
unfolding swap_elements
exchange n m s =
    if m == 0
    then none
    else if leb (length s) (n + m)
    then some (err stack_underflow)
    else swap_elements n (n + m) s

unfoldable pub swap : ℕ → Stack → Option (Result Stack)
unfolding exchange
swap n s = exchange 0 n s

-- `Stack::set`
unfoldable pub set_element : ℕ → U256 → Stack → Result Stack
set_element no_from_top val s =
    if ltb no_from_top (length s) then ok (set s no_from_top val) else err stack_underflow

-- `rchunks_exact(8)` and the last limb, padded with zeros: the bytes are given from the last to the
-- first, and the fuel is their number.
unfoldable pub limbs_of_bytes : ℕ → List ℕ → List ℕ
limbs_of_bytes zero bytes = []
limbs_of_bytes (suc fuel) [] = []
limbs_of_bytes (suc fuel) (b ∷ bytes) =
    let limb = from_be_bytes (reverse (take 8 (b ∷ bytes))) in
    limb ∷ limbs_of_bytes fuel (drop 8 (b ∷ bytes))

-- The limbs that the writes put into one word, with zeros above them.
unfoldable pub word_of_limbs : List ℕ → U256
word_of_limbs [] = 0
word_of_limbs (limb ∷ limbs) = limb + 2 ^ 64 * word_of_limbs limbs

-- `chunks_exact(32)` and its remainder, each written limb by limb; the fuel is the number of bytes.
unfoldable pub words_of_slice : ℕ → List ℕ → List U256
unfolding limbs_of_bytes word_of_limbs
words_of_slice zero slice = []
words_of_slice (suc fuel) [] = []
words_of_slice (suc fuel) (b ∷ slice) =
    let word = take 32 (b ∷ slice) in
    word_of_limbs (limbs_of_bytes 32 (reverse word)) ∷ words_of_slice fuel (drop 32 (b ∷ slice))

unfoldable pub push_slice : List ℕ → Stack → Result Stack
unfolding words_of_slice
push_slice slice s =
    if length slice == 0
    then ok s
    else if ltb stack_limit (length s + (length slice + 31) / 32)
    then err stack_overflow
    else ok (reverse (words_of_slice (length slice) slice) ++ s)

pub record FunctionReturnFrame : Type 0 where
  pub idx : ℕ
  pub pc : ℕ

pub record FunctionStack : Type 0 where
  pub return_stack : List FunctionReturnFrame
  pub current_code_idx : ℕ

unfoldable pub push_frame : ℕ → ℕ → FunctionStack → FunctionStack
push_frame program_counter new_idx f = record {
  return_stack = (record { idx = f.current_code_idx; pc = program_counter }) ∷ f.return_stack;
  current_code_idx = new_idx;
}

unfoldable pub pop_frame : FunctionStack → Option FunctionReturnFrame × FunctionStack
pop_frame f = elim f.return_stack [
  | [] ↦ (none, f)
  | frame ∷ rest ↦ (some frame, record { return_stack = rest; current_code_idx = frame.idx })
]

unfoldable pub set_current_code_idx : ℕ → FunctionStack → FunctionStack
set_current_code_idx idx f = record f { current_code_idx = idx }
