-- ===== src/Interpreter/SharedMemory/Isolation.antt =====
-- Proofs about scripts of nested frames on the shared memory.
use sabvm.Prelude.{
  ℕ, zero, suc, ◌+◌, ◌-◌, ◌<◌, ◌≤◌, List, [], ◌∷◌, ◌++◌, Option, none, some, ◌≡◌, refl, ap, ◌∙◌,
  leb, length, take, drop, replicate, u64_mod, arith, length-append, length-replicate, inl, inr,
  Bool-cases, leb→le, some_inj, Option-cases, Bool-cases,
}
use sabvm.Interpreter.SharedMemory.{free_context, resize_buffer, overwrite}
use sabvm.Interpreter.SharedMemory.Contexts.{
  Contexts, flat, shared, enter, leave, set_current, with_current, write, map_option,
  new_context-shared, free_context-shared,
}
use sabvm.Interpreter.SharedMemory.Frames.{
  MemoryOp, resize_to, set_at, set_data_at, copy_within, read, ◌then_memory◌, perform, Script, end,
  step, call, run_script, perform_script, demand, asked, run_op-perform,
}

pub length-take : (n : ℕ) (xs : List ℕ) → n ≤ length xs → length (take n xs) ≡ n
length-take zero xs h = refl
length-take (suc n) [] h = absurd (omega arith)
length-take (suc n) (x ∷ xs) h = ap suc (length-take n xs (omega arith))

pub length-drop : (n : ℕ) (xs : List ℕ) → length (drop n xs) ≡ length xs - n
length-drop zero xs = omega arith
length-drop (suc n) [] = omega arith
length-drop (suc n) (x ∷ xs) = omega (arith, length-drop n xs)

pub length-overwrite :
    (n : ℕ) (value m : List ℕ)
    → n + length value ≤ length m
    → length (overwrite n value m) ≡ length m
unfolding overwrite
length-overwrite n value m h = omega (
  arith,
  length-append (take n m) (value ++ drop (n + length value) m),
  length-append value (drop (n + length value) m),
  length-take n m (omega arith),
  length-drop (n + length value) m,
)

pub length-write : (n : ℕ) (value m m' : List ℕ) → write n value m ≡ some m' → length m' ≡ length m
unfolding write
length-write n value m m' e = ground (arith, length-overwrite n value m)

then_inv :
    {A B : Type 0} (o : Option A) (f : A → Option B) {b : B}
    → (o then_memory f) ≡ some b
    → (a : A) × (o ≡ some a) × (f a ≡ some b)
then_inv none f e = cc
then_inv (some a) f e = (a, refl, e)

pub length-resize_buffer : (n : ℕ) (m : List ℕ) → length (resize_buffer n m) ≡ n
unfolding resize_buffer
length-resize_buffer n m = elim (Bool-cases (leb n (length m))) [
  | inl h ↦ rw h (length-take n m (leb→le n (length m) h))
  | inr h ↦ rw h (
      ground (
        arith,
        length-append m (replicate (n - length m) 0),
        length-replicate {A = ℕ} (n - length m) 0,
      ))
]

length-two_writes :
    (i j : ℕ) (v w m m' : List ℕ)
    → (write i v m then_memory write j w) ≡ some m'
    → length m' ≤ length m + 0
length-two_writes i j v w m m' e =
    let (a, first, second) = then_inv (write i v m) (write j w) e in
    omega (arith, length-write i v m a first, length-write j w a m' second)

pub length-perform :
    (op : MemoryOp) (m m' : List ℕ) → perform op m ≡ some m' → length m' ≤ length m + asked op
unfolding perform
length-perform (resize_to n) m m' e =
    omega (arith, ap length (some_inj e), length-resize_buffer n m)
length-perform (set_at offset value) m m' e = ground (arith, length-write offset value m m')
length-perform (set_data_at memory_offset data_offset len bytes) m m' e =
    elim (Bool-cases (leb (length bytes) data_offset)) [
      | inl h ↦ omega (arith, length-write memory_offset (replicate len 0) m m' (rw h at e))
      | inr h ↦ length-two_writes _ _ _ _ m m' (rw h at e)
    ]
length-perform (copy_within dst src len) m m' e =
    let (bytes, read_it, written) = then_inv (read src len m) (λ bytes. write dst bytes m) e in
    omega (arith, length-write dst bytes m m' written)

script_bound : (op : MemoryOp) (rest : Script) → demand (step op rest) ≡ asked op + demand rest
unfolding demand
script_bound (resize_to n) rest = refl
script_bound (set_at offset value) rest = omega arith
script_bound (set_data_at memory_offset data_offset len bytes) rest = omega arith
script_bound (copy_within dst src len) rest = omega arith

call_bound : (callee rest : Script) → demand (call callee rest) ≡ demand callee + demand rest
unfolding demand
call_bound callee rest = refl

callee_bound :
    (callee rest : Script) (c : Contexts)
    → length (flat c.callers) + length c.current + demand (call callee rest) < u64_mod
    → length (flat (enter c).callers) + length (enter c).current + demand callee < u64_mod
unfolding enter flat
callee_bound callee rest c h =
    omega (arith, call_bound callee rest, length-append (flat c.callers) c.current)

-- The end of a call: what the callee's memory holds is gone, and the caller's is there.
after_call : (c : Contexts) (m : List ℕ) → free_context (with_current (enter c) m) ≡ shared c
unfolding enter set_current leave
after_call c m = free_context-shared (record { current = m; callers = c.current ∷ c.callers })

-- A frame's work, calls nested in it to any depth, on the shared memory is the same work on separate
-- memories: it succeeds if and only if that does, with the same bytes in the frame's memory, and the
-- callers' memories are as before. The memory that the script asks for is addressed by a `usize`.
pub run_script-perform_script :
    (script : Script) (c : Contexts)
    → length (flat c.callers) + length c.current + demand script < u64_mod
    → run_script script (shared c) ≡ map_option (with_current c) (perform_script script c.current)
unfolding run_script perform_script set_current enter
run_script-perform_script end c h = refl
run_script-perform_script (step op rest) c h =
    ap (λ o. o then_memory run_script rest)
      (run_op-perform op c (omega (arith, script_bound op rest)))
    ∙ elim (Option-cases (perform op c.current)) [
      | inl n ↦ rw n refl
      | inr (m, e) ↦ rw e (
          run_script-perform_script rest (set_current m c)
            (omega (arith, script_bound op rest, length-perform op c.current m e)))
    ]
run_script-perform_script (call callee rest) c h =
    ap (λ m. run_script callee m then_memory λ m'. run_script rest (free_context m'))
      (new_context-shared c)
    ∙ ap (λ o. o then_memory λ m'. run_script rest (free_context m'))
        (run_script-perform_script callee (enter c) (callee_bound callee rest c h))
    ∙ elim (Option-cases (perform_script callee [])) [
      | inl n ↦ rw n refl
      | inr (m, e) ↦ rw e (
          ap (run_script rest) (after_call c m)
          ∙ run_script-perform_script rest c (omega (arith, call_bound callee rest)))
    ]
