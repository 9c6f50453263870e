-- ===== src/Interpreter/SharedMemory/Frames.antt =====
-- Frames that work on the shared memory, and the same work on separate memories.
use sabvm.Prelude.{
  Bool, true, false, ℕ, ◌+◌, ◌-◌, ◌<◌, List, [], ◌++◌, Option, none, some, ◌≡◌, refl, ap, ◌∙◌, leb,
  ◌==◌, if◌then◌else◌, length, take, drop, replicate, min, u64_mod, arith, append_assoc,
  length-append,
}
use sabvm.Interpreter.SharedMemory.{
  SharedMemory, new_context, free_context, resize, resize_buffer, slice, copy_into, set_memory,
  set_data, copy,
}
use sabvm.Interpreter.SharedMemory.Contexts.{
  Contexts, flat, shared, set_current, with_current, write, map_option, context_memory-shared,
  copy_into-shared, take-append_add,
}

-- The operations that change the memory of the running context.
pub data MemoryOp : Type 0 where
  resize_to : ℕ → MemoryOp
  set_at : ℕ → List ℕ → MemoryOp
  set_data_at : ℕ → ℕ → ℕ → List ℕ → MemoryOp
  copy_within : ℕ → ℕ → ℕ → MemoryOp

unfoldable pub run_op : MemoryOp → SharedMemory → Option SharedMemory
run_op (resize_to n) m = some (resize n m)
run_op (set_at offset value) m = set_memory offset value m
run_op (set_data_at memory_offset data_offset len bytes) m =
    set_data memory_offset data_offset len bytes m
run_op (copy_within dst src len) m = copy dst src len m

-- The same on a memory that is a list of bytes of its own.
unfoldable pub read : ℕ → ℕ → List ℕ → Option (List ℕ)
read offset size m =
    if leb (offset + size) (length m) then some (take size (drop offset m)) else none

infixl 5 ◌then_memory◌
abbrev pub ◌then_memory◌ {ℓ} : {A B : Type ℓ} → Option A → (A → Option B) → Option B
none then_memory f = none
some a then_memory f = f a

unfoldable pub perform : MemoryOp → List ℕ → Option (List ℕ)
perform (resize_to n) m = some (resize_buffer n m)
perform (set_at offset value) m = if length value == 0 then some m else write offset value m
perform (set_data_at memory_offset data_offset len bytes) m =
    let data_len = min (data_offset + len) (length bytes) - data_offset in
    if leb (length bytes) data_offset
    then write memory_offset (replicate len 0) m
    else write memory_offset (take data_len (drop data_offset bytes)) m
      then_memory write (memory_offset + data_len) (replicate (len - data_len) 0)
perform (copy_within dst src len) m = read src len m then_memory λ bytes. write dst bytes m

-- The work of a frame: operations, and calls whose frames work in a context of their own.
mutual
  pub data Script : Type 0 where
    end : Script
    step : MemoryOp → Script → Script
    call : Script → Script → Script

unfoldable pub run_script : Script → SharedMemory → Option SharedMemory
unfolding run_op
run_script end m = some m
run_script (step op rest) m = run_op op m then_memory run_script rest
run_script (call callee rest) m =
    run_script callee (new_context m) then_memory λ m'. run_script rest (free_context m')

-- A callee begins with an empty memory of its own, and its caller keeps the one that it had.
unfoldable pub perform_script : Script → List ℕ → Option (List ℕ)
perform_script end m = some m
perform_script (step op rest) m = perform op m then_memory perform_script rest
perform_script (call callee rest) m =
    perform_script callee [] then_memory λ callee_memory. perform_script rest m

-- A bound of the memory that a script asks for.
unfoldable pub demand : Script → ℕ
demand end = 0
demand (step (resize_to n) rest) = n + demand rest
demand (step (set_at offset value) rest) = demand rest
demand (step (set_data_at memory_offset data_offset len bytes) rest) = demand rest
demand (step (copy_within dst src len) rest) = demand rest
demand (call callee rest) = demand callee + demand rest

pub slice-shared :
    (offset size : ℕ) (c : Contexts) → slice offset size (shared c) ≡ read offset size c.current
unfolding slice read
slice-shared offset size c =
    ap (λ m. if leb (offset + size) (length m) then some (take size (drop offset m)) else none)
      (context_memory-shared c)

leb_add : (a b c : ℕ) → leb (a + b) (a + c) ≡ leb b c
leb_add a b c = ground arith

if-append :
    (xs : List ℕ) (b : Bool) {x y : List ℕ} (x' y' : List ℕ)
    → x ≡ xs ++ x'
    → y ≡ xs ++ y'
    → (if b then x else y) ≡ xs ++ (if b then x' else y')
if-append xs true x' y' p q = p
if-append xs false x' y' p q = q

resize_buffer-append :
    (xs ys : List ℕ) (n : ℕ) → resize_buffer (length xs + n) (xs ++ ys) ≡ xs ++ resize_buffer n ys
unfolding resize_buffer
resize_buffer-append xs ys n =
    ap
      (λ b.
        if b
        then take (length xs + n) (xs ++ ys)
        else (xs ++ ys) ++ replicate (length xs + n - length (xs ++ ys)) 0)
      (ap (leb (length xs + n)) (length-append xs ys) ∙ leb_add (length xs) n (length ys))
    ∙ if-append xs (leb n (length ys)) (take n ys) (ys ++ replicate (n - length ys) 0)
        (take-append_add xs ys n)
        (append_assoc xs ys (replicate (length xs + n - length (xs ++ ys)) 0)
          ∙ ap (λ k. xs ++ (ys ++ replicate k 0)) (omega (arith, length-append xs ys)))

pub resize-shared :
    (n : ℕ) (c : Contexts)
    → length (flat c.callers) + n < u64_mod
    → resize n (shared c) ≡ with_current c (resize_buffer n c.current)
unfolding resize shared set_current
resize-shared n c h =
    ap (λ k. record (shared c) { buffer = resize_buffer k (flat c.callers ++ c.current) })
      (omega arith)
    ∙ ap (λ b. record (shared c) { buffer = b }) (resize_buffer-append (flat c.callers) c.current n)

-- What follows an operation, on both sides.
then_memory-lem :
    {A : Type 0} (c : Contexts) (o : Option A) (f : A → Option SharedMemory)
    (g : A → Option (List ℕ))
    → ((a : A) → f a ≡ map_option (with_current c) (g a))
    → (o then_memory f) ≡ map_option (with_current c) (o then_memory g)
then_memory-lem c none f g h = refl
then_memory-lem c (some a) f g h = h a

elim_then :
    {A B : Type 0} (o : Option A) (f : A → Option B)
    → (elim o as (λ _. Option B) [ none ↦ none | some a ↦ f a ]) ≡ (o then_memory f)
elim_then none f = refl
elim_then (some a) f = refl

write-then :
    (c : Contexts) (o : Option (List ℕ)) (offset : ℕ) (value : List ℕ)
    → (map_option (with_current c) o then_memory copy_into offset value)
      ≡ map_option (with_current c) (o then_memory write offset value)
unfolding set_current
write-then c none offset value = refl
write-then c (some m) offset value = copy_into-shared offset value (set_current m c)

if-option :
    (c : Contexts) (b : Bool) {x y : Option SharedMemory} (x' y' : Option (List ℕ))
    → x ≡ map_option (with_current c) x'
    → y ≡ map_option (with_current c) y'
    → (if b then x else y) ≡ map_option (with_current c) (if b then x' else y')
if-option c true x' y' p q = p
if-option c false x' y' p q = q

pub set_memory-shared :
    (offset : ℕ) (value : List ℕ) (c : Contexts)
    → set_memory offset value (shared c)
      ≡ map_option (with_current c) (perform (set_at offset value) c.current)
unfolding set_memory perform set_current
set_memory-shared offset value c =
    if-option c (length value == 0) (some c.current) (write offset value c.current) refl
      (copy_into-shared offset value c)

pub set_data-shared :
    (memory_offset data_offset len : ℕ) (bytes : List ℕ) (c : Contexts)
    → set_data memory_offset data_offset len bytes (shared c)
      ≡ map_option
          (with_current c)
          (perform (set_data_at memory_offset data_offset len bytes) c.current)
unfolding set_data perform
set_data-shared memory_offset data_offset len bytes c =
    let data_len = min (data_offset + len) (length bytes) - data_offset in
    let first = take data_len (drop data_offset bytes) in
    if-option c (leb (length bytes) data_offset) _ _
      (copy_into-shared memory_offset (replicate len 0) c)
      (elim_then (copy_into memory_offset first (shared c)) _
        ∙ ap
            (λ o. o then_memory copy_into (memory_offset + data_len) (replicate (len - data_len) 0))
            (copy_into-shared memory_offset first c)
        ∙ write-then c (write memory_offset first c.current) (memory_offset + data_len)
            (replicate (len - data_len) 0))

pub copy-shared :
    (dst src len : ℕ) (c : Contexts)
    → copy dst src len (shared c)
      ≡ map_option (with_current c) (perform (copy_within dst src len) c.current)
unfolding copy perform
copy-shared dst src len c =
    elim_then (slice src len (shared c)) _
    ∙ ap (λ o. o then_memory λ bytes. copy_into dst bytes (shared c)) (slice-shared src len c)
    ∙ then_memory-lem c (read src len c.current) (λ bytes. copy_into dst bytes (shared c))
        (λ bytes. write dst bytes c.current) (λ bytes. copy_into-shared dst bytes c)

-- The size that an operation asks for.
abbrev pub asked : MemoryOp → ℕ
asked (resize_to n) = n
asked (set_at offset value) = 0
asked (set_data_at memory_offset data_offset len bytes) = 0
asked (copy_within dst src len) = 0

-- An operation changes the memory of the running context and no other.
pub run_op-perform :
    (op : MemoryOp) (c : Contexts)
    → length (flat c.callers) + asked op < u64_mod
    → run_op op (shared c) ≡ map_option (with_current c) (perform op c.current)
unfolding run_op perform
run_op-perform (resize_to n) c h = ap some (resize-shared n c h)
run_op-perform (set_at offset value) c h = set_memory-shared offset value c
run_op-perform (set_data_at memory_offset data_offset len bytes) c h =
    set_data-shared memory_offset data_offset len bytes c
run_op-perform (copy_within dst src len) c h = copy-shared dst src len c
