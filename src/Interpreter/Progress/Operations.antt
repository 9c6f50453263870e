-- ===== src/Interpreter/Progress/Operations.antt =====
-- Proofs that the instructions on words, the stack and the memory move on.
use Prim.Native.Nat.{max}
use sabvm.Prelude.{
  ℕ, ◌+◌, ◌-◌, ◌≤◌, ◌%◌, ◌/◌, List, [], ◌∷◌, Option, none, some, ◌≡◌, ◌≢◌, refl, Bool-cases,
  some_inj, u64_mod, u256_mod, checked_add, checked_mul, leb, ltb, ◌==◌, if◌then◌else◌, length,
  take, drop, get_elem?, min, inl, inr, arith, Bool, true, false, ⊤, Option-cases,
}
use sabvm.State.{SpecId, enabled, spurious_dragon, U256, cancun, shanghai}
use sabvm.Gas
use sabvm.Gas.{log2floor, ◌>>=◌, exp_cost, verylow, base, verylowcopy_cost, cost_per_word}
use sabvm.Interpreter.Results.{stack_underflow}
use sabvm.Interpreter.Stack
use sabvm.Interpreter.Stack.{Result, ok, err, push_slice, stack_limit, swap_elements}
use sabvm.Interpreter.SharedMemory.{SharedMemory, memory_len, get_u256, set_u256, set_byte, copy}
use sabvm.Interpreter.Machine.{Interpreter, Instruction, fail, set_top, push_value, on_unchecked}
use sabvm.Interpreter.Instructions.{
  with_value, with_memory, exp, mload, mstore, mstore8, msize, mcopy, mcopy_at,
}
use sabvm.Interpreter.Instructions.StackOps
use sabvm.Interpreter.Instructions.Operators.{
  IsOperator, one_operand, two_operands, three_operands, since,
}
use sabvm.Interpreter.Progress.{
  Steps, Steady, Stops, gas_cost-Steady, gas_or_fail-Steady, check-Steady, require_eof-Steady,
  as_usize_or_fail-Steady, pop2-Steady, pop3-Steady, pop_top1-Steady, pop_top2-Steady,
  pop_top3-Steady, set_top-Steady, on_stack-Steps, resize_memory-Steady, some-Steps, none-Steps,
  done-Steps, if-Steps, fail-Steps, with_stack_Steps, stays,
}

pub operator-Steady : {k : Instruction} → IsOperator k → Steady 1 k
operator-Steady (one_operand cost f p) =
    gas_cost-Steady cost _ p (pop_top1-Steady 0 _ λ x. set_top-Steady (f x))
operator-Steady (two_operands cost f p) =
    gas_cost-Steady cost _ p (pop_top2-Steady 0 _ λ x y. set_top-Steady (f x y))
operator-Steady (three_operands cost f p) =
    gas_cost-Steady cost _ p (pop_top3-Steady 0 _ λ x y z. set_top-Steady (f x y z))
operator-Steady (since spec min k h) = check-Steady 1 spec min k (operator-Steady h)

pub charged : (m a : ℕ) (o : Option ℕ) {n : ℕ} → (o >>= checked_add m a) ≡ some n → a ≤ n
unfolding checked_add
charged m a none e = absurd cc
charged m a (some b) e = ground (arith, e)

nothing : {n : ℕ} → none ≢ some n
nothing e = cc

narrowed :
    (o : Option ℕ) {n : ℕ}
    → (o >>= λ g. if ltb g u64_mod then some g else none) ≡ some n
    → o ≡ some n
narrowed none e = cc
narrowed (some g) e = elim (Bool-cases (ltb g u64_mod)) [
  | inl b ↦ rw b at e
  | inr b ↦ absurd (nothing (rw b at e))
]

-- The part of the cost of `exp` that depends on the power.
abbrev power_gas : SpecId → U256 → Option ℕ
power_gas spec power =
    checked_mul u256_mod (if enabled spec spurious_dragon then 50 else 10) (log2floor power / 8 + 1)

exp_cost-pos : (spec : SpecId) (power : U256) (n : ℕ) → exp_cost spec power ≡ some n → 1 ≤ n
unfolding exp_cost
exp_cost-pos spec power n e = elim (Bool-cases (power == 0)) [
  | inl z ↦ omega (arith, some_inj (rw z at e))
  | inr z ↦ omega (
    arith,
    charged u256_mod 10 (power_gas spec power)
        (narrowed (power_gas spec power >>= checked_add u256_mod 10) (rw z at e)),
  )
]

pub exp-Steady : (spec : SpecId) → Steady 1 (exp spec)
unfolding exp
exp-Steady spec =
    pop_top2-Steady 1 _
      λ op1 op2. gas_or_fail-Steady (exp_cost spec op2) _ (exp_cost-pos spec op2) (set_top-Steady _)

pub verylowcopy_cost-pos : (len n : ℕ) → verylowcopy_cost len ≡ some n → 1 ≤ n
unfolding verylowcopy_cost
verylowcopy_cost-pos len n e = omega (arith, charged u64_mod 3 (cost_per_word len Gas.copy) e)

if-Stops : (b : Bool) (r r' : Result Stack.Stack) → Stops r → Stops r' → Stops (if b then r else r')
if-Stops true r r' h k = h
if-Stops false r r' h k = k

push-Stops : (x : U256) (s : Stack.Stack) → Stops (Stack.push x s)
unfolding Stack.push
push-Stops x s = if-Stops (length s == stack_limit) _ _ (λ e. cc) tt

-- The same for what may have read out of bounds, after which the machine does not go on.
abbrev StopsUnchecked : Option (Result Stack.Stack) → Type 0
StopsUnchecked none = ⊤
StopsUnchecked (some r) = Stops r

on_unchecked-Steps :
    (o : Option (Result Stack.Stack)) (i : Interpreter)
    → StopsUnchecked o
    → Steps 0 i (on_unchecked o i)
unfolding on_unchecked
on_unchecked-Steps none i h = none-Steps 0 i
on_unchecked-Steps (some r) i h = on_stack-Steps r i h

if-StopsUnchecked :
    (b : Bool) (x y : Option (Result Stack.Stack))
    → StopsUnchecked x
    → StopsUnchecked y
    → StopsUnchecked (if b then x else y)
if-StopsUnchecked true x y h k = h
if-StopsUnchecked false x y h k = k

copied-Stops :
    (o : Option U256) (s : Stack.Stack)
    → StopsUnchecked
        (elim o as (λ _. Option (Result Stack.Stack)) [ some x ↦ some (ok (x ∷ s)) | none ↦ none ])
copied-Stops none s = tt
copied-Stops (some x) s = tt

dup-Stops : (n : ℕ) (s : Stack.Stack) → StopsUnchecked (Stack.dup n s)
unfolding Stack.dup
dup-Stops n s = if-StopsUnchecked (n == 0) _ _ tt (
    if-StopsUnchecked (ltb (length s) n) _ _ (λ e. cc)
      (if-StopsUnchecked (ltb stack_limit (length s + 1)) _ _ (λ e. cc)
        (copied-Stops (get_elem? s (n - 1)) s)))

swap_elements-Stops : (i j : ℕ) (s : Stack.Stack) → StopsUnchecked (swap_elements i j s)
unfolding swap_elements
swap_elements-Stops i j s = elim (Option-cases (get_elem? s i)) [
  | inl n ↦ rw (n, swap_elements) tt
  | inr (x, e) ↦ elim (Option-cases (get_elem? s j)) [
    | inl n ↦ rw (e, n, swap_elements) tt
    | inr (y, f) ↦ rw (e, f, swap_elements) tt
  ]
]

exchange-Stops : (n m : ℕ) (s : Stack.Stack) → StopsUnchecked (Stack.exchange n m s)
unfolding Stack.exchange
exchange-Stops n m s =
    if-StopsUnchecked (m == 0) _ _ tt
      (if-StopsUnchecked (leb (length s) (n + m)) _ _ (λ e. cc) (swap_elements-Stops n (n + m) s))

push_slice-Stops : (slice : List ℕ) (s : Stack.Stack) → Stops (push_slice slice s)
unfolding push_slice
push_slice-Stops slice s =
    if-Stops (length slice == 0) _ _ tt
      (if-Stops (ltb stack_limit (length s + (length slice + 31) / 32)) _ _ (λ e. cc) tt)

pub push_value-Steady : (x : U256) → Steady 0 (push_value x)
unfolding push_value
push_value-Steady x i l = on_stack-Steps _ i (push-Stops x i.stack)

pub push0-Steady : (spec : SpecId) → Steady 1 (StackOps.push0 spec)
unfolding StackOps.push0
push0-Steady spec =
    check-Steady 1 spec shanghai _
      (gas_cost-Steady base _ (omega arith) λ i l. on_stack-Steps _ i (push-Stops 0 i.stack))

pub dup-Steady : (n : ℕ) → Steady 1 (StackOps.dup n)
unfolding StackOps.dup
dup-Steady n =
    gas_cost-Steady verylow _ (omega arith) λ i l. on_unchecked-Steps _ i (dup-Stops n i.stack)

pub swap-Steady : (n : ℕ) → Steady 1 (StackOps.swap n)
unfolding StackOps.swap Stack.swap
swap-Steady n =
    gas_cost-Steady verylow _ (omega arith)
      λ i l. on_unchecked-Steps _ i (exchange-Stops 0 n i.stack)

pub dupn-Steady : Steady 1 StackOps.dupn
unfolding StackOps.dupn
dupn-Steady = require_eof-Steady 1 _

pub swapn-Steady : Steady 1 StackOps.swapn
unfolding StackOps.swapn
swapn-Steady = require_eof-Steady 1 _

pub exchange-Steady : Steady 1 StackOps.exchange
unfolding StackOps.exchange
exchange-Steady = require_eof-Steady 1 _

popped-Steps :
    (i : Interpreter) (s : Stack.Stack)
    → Steps 0 i (elim (Stack.pop s) as (λ _. Option Interpreter) [
      | ok (x, s') ↦ some (record i { stack = s' })
      | err result ↦ fail result i
    ])
unfolding Stack.pop
popped-Steps i [] = fail-Steps 0 stack_underflow (λ e. cc) i
popped-Steps i (x ∷ s) = with_stack_Steps i s

pub pop-Steady : Steady 1 StackOps.pop
unfolding StackOps.pop
pop-Steady = gas_cost-Steady base _ (omega arith) λ i l. popped-Steps i i.stack

pushed-Steps :
    (n : ℕ)
    → n ≤ 32
    → (i : Interpreter) (r : Result Stack.Stack) → Stops r
    → Steps 0 i (elim r as (λ _. Option Interpreter) [
      | err result ↦ fail result i
      | ok s ↦ some (record i { stack = s; instruction_pointer = drop n i.instruction_pointer })
    ])
pushed-Steps n b i (err result) h = fail-Steps 0 result h i
pushed-Steps n b i (ok s) h = some-Steps 0 i _ (record {
  same_contract = refl;
  same_bytecode = refl;
  same_format = refl;
  spends = λ e. omega arith;
  moves = λ e. inl (n, b, refl);
})

pub push-Steady : (n : ℕ) → n ≤ 32 → Steady 1 (StackOps.push n)
unfolding StackOps.push
push-Steady n b =
    gas_cost-Steady verylow _ (omega arith)
      λ i l. pushed-Steps n b i _ (push_slice-Stops (take n i.instruction_pointer) i.stack)

with_value-Steps :
    (o : Option U256) (i : Interpreter) → i.is_eof ≡ false → Steps 0 i (with_value o set_top i)
with_value-Steps none i l = none-Steps 0 i
with_value-Steps (some x) i l = set_top-Steady x i l

pub with_memory-Steps : (o : Option SharedMemory) (i : Interpreter) → Steps 0 i (with_memory o i)
with_memory-Steps none i = none-Steps 0 i
with_memory-Steps (some m) i =
    some-Steps 0 i (record i { shared_memory = m }) (stays i i.stack m i.gas (omega arith))

pub mload-Steady : Steady 1 mload
unfolding mload
mload-Steady = gas_cost-Steady verylow _ (omega arith) (
    pop_top1-Steady 0 _ λ top. as_usize_or_fail-Steady 0 top _ λ offset.
      resize_memory-Steady 0 offset 32 _
        λ i l. with_value-Steps (get_u256 offset i.shared_memory) i l)

pub mstore-Steady : Steady 1 mstore
unfolding mstore
mstore-Steady = gas_cost-Steady verylow _ (omega arith) (
    pop2-Steady 0 _ λ offset value. as_usize_or_fail-Steady 0 offset _ λ offset.
      resize_memory-Steady 0 offset 32 _
        λ i l. with_memory-Steps (set_u256 offset value i.shared_memory) i)

pub mstore8-Steady : Steady 1 mstore8
unfolding mstore8
mstore8-Steady = gas_cost-Steady verylow _ (omega arith) (
    pop2-Steady 0 _ λ offset value. as_usize_or_fail-Steady 0 offset _ λ offset.
      resize_memory-Steady 0 offset 1 _
        λ i l. with_memory-Steps (set_byte offset (value % 256) i.shared_memory) i)

pub msize-Steady : Steady 1 msize
unfolding msize
msize-Steady =
    gas_cost-Steady base _ (omega arith) λ i l. push_value-Steady (memory_len i.shared_memory) i l

mcopy_at-Steady : (dst src : U256) (len : ℕ) → Steady 0 (mcopy_at dst src len)
unfolding mcopy_at
mcopy_at-Steady dst src len = as_usize_or_fail-Steady 0 dst _ λ dst.
    as_usize_or_fail-Steady 0 src _ λ src.
      resize_memory-Steady 0 (max dst src) len _
        λ i l. with_memory-Steps (copy dst src len i.shared_memory) i

pub mcopy-Steady : (spec : SpecId) → Steady 1 (mcopy spec)
unfolding mcopy
mcopy-Steady spec = check-Steady 1 spec cancun _ (
    pop3-Steady 1 _ λ dst src len. as_usize_or_fail-Steady 1 len _ λ len.
      gas_or_fail-Steady (verylowcopy_cost len) _ (verylowcopy_cost-pos len)
        λ i l. if-Steps 0 i (len == 0) (done-Steps i) (mcopy_at-Steady dst src len i l))
