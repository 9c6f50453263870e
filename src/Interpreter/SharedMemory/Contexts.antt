-- ===== src/Interpreter/SharedMemory/Contexts.antt =====
-- What the shared memory promises: every context has a memory of its own, and those of the callers
-- lie below it, untouched.
use sabvm.Prelude.{
  Bool, true, false, ℕ, suc, ◌+◌, List, [], ◌∷◌, ◌++◌, Option, none, some, ◌≡◌, refl, sym, ap, ap₂,
  ◌∙◌, leb, if◌then◌else◌, length, take, drop, arith, append_assoc, length-append, drop-append,
  take-append,
}
use sabvm.Interpreter.SharedMemory.{
  SharedMemory, new_context, free_context, last_or_zero, memory_len, context_memory, overwrite,
  copy_into,
}

-- The memory of the running context, and those of its callers, the nearest first.
pub record Contexts : Type 0 where
  pub current : List ℕ
  pub callers : List (List ℕ)

-- The callers' memories one after another, the outermost first, and where each ends.
unfoldable pub flat : List (List ℕ) → List ℕ
flat [] = []
flat (m ∷ ms) = flat ms ++ m

unfoldable pub marks : List (List ℕ) → List ℕ
unfolding flat
marks [] = []
marks (m ∷ ms) = length (flat (m ∷ ms)) ∷ marks ms

-- The shared memory that stands for separate memories.
unfoldable pub shared : Contexts → SharedMemory
unfolding flat marks
shared c = record {
  buffer = flat c.callers ++ c.current;
  checkpoints = marks c.callers;
  last_checkpoint = length (flat c.callers);
}

-- A call and its end, on separate memories.
unfoldable pub enter : Contexts → Contexts
enter c = record { current = []; callers = c.current ∷ c.callers }

unfoldable pub leave : Contexts → Contexts
leave c = elim c.callers [ [] ↦ c | m ∷ ms ↦ record { current = m; callers = ms } ]

unfoldable pub set_current : List ℕ → Contexts → Contexts
set_current m c = record c { current = m }

append_nil : (xs : List ℕ) → xs ++ [] ≡ xs
append_nil [] = refl
append_nil (x ∷ xs) = ap (λ l. x ∷ l) (append_nil xs)

pub new_context-shared : (c : Contexts) → new_context (shared c) ≡ shared (enter c)
unfolding new_context shared enter
new_context-shared c =
    let b = flat c.callers ++ c.current in
    ap
      (λ buffer. record {
        buffer = buffer;
        checkpoints = length b ∷ marks c.callers;
        last_checkpoint = length b;
      })
      (sym (append_nil b))

last-marks : (ms : List (List ℕ)) → last_or_zero (marks ms) ≡ length (flat ms)
unfolding last_or_zero marks
last-marks [] = refl
last-marks (m ∷ ms) = refl

leave-callers :
    (cur : List ℕ) (ms : List (List ℕ))
    → free_context (shared (record { current = cur; callers = ms }))
      ≡ shared (leave (record { current = cur; callers = ms }))
unfolding free_context shared leave marks
leave-callers cur [] = refl
leave-callers cur (m ∷ ms) =
    ap₂ (λ buffer last. record { buffer = buffer; checkpoints = marks ms; last_checkpoint = last })
      (take-append (flat ms ++ m) cur) (last-marks ms)

pub free_context-shared : (c : Contexts) → free_context (shared c) ≡ shared (leave c)
free_context-shared c = leave-callers c.current c.callers

pub context_memory-shared : (c : Contexts) → context_memory (shared c) ≡ c.current
unfolding context_memory shared
context_memory-shared c = drop-append (flat c.callers) c.current

pub memory_len-shared : (c : Contexts) → memory_len (shared c) ≡ length c.current
unfolding memory_len shared
memory_len-shared c = omega (arith, length-append (flat c.callers) c.current)

module _ {ℓ} {A : Type ℓ} where
  pub take-append_add : (xs ys : List A) (n : ℕ) → take (length xs + n) (xs ++ ys) ≡ xs ++ take n ys
  take-append_add [] ys n = ap (λ k. take k ys) (omega arith)
  take-append_add (x ∷ xs) ys n =
      let e : suc (length xs) + n ≡ suc (length xs + n) = omega arith in
      ap (λ k. take k (x ∷ (xs ++ ys))) e ∙ ap (λ l. x ∷ l) (take-append_add xs ys n)

  pub drop-append_add : (xs ys : List A) (n : ℕ) → drop (length xs + n) (xs ++ ys) ≡ drop n ys
  drop-append_add [] ys n = ap (λ k. drop k ys) (omega arith)
  drop-append_add (x ∷ xs) ys n =
      let e : suc (length xs) + n ≡ suc (length xs + n) = omega arith in
      ap (λ k. drop k (x ∷ (xs ++ ys))) e ∙ drop-append_add xs ys n

-- A write into the current memory.
unfoldable pub write : ℕ → List ℕ → List ℕ → Option (List ℕ)
write offset value m =
    if leb (offset + length value) (length m) then some (overwrite offset value m) else none

overwrite-append :
    (xs ys value : List ℕ) (n : ℕ)
    → overwrite (length xs + n) value (xs ++ ys) ≡ xs ++ overwrite n value ys
unfolding overwrite
overwrite-append xs ys value n =
    ap₂ (λ a b. a ++ (value ++ b)) (take-append_add xs ys n)
      (ap (λ k. drop k (xs ++ ys)) (omega arith) ∙ drop-append_add xs ys (n + length value))
    ∙ append_assoc xs (take n ys) (value ++ drop (n + length value) ys)

abbrev pub map_option {ℓ κ} : {A : Type ℓ} {B : Type κ} → (A → B) → Option A → Option B
map_option f none = none
map_option f (some a) = some (f a)

pub if-map :
    {A B : Type 0} (b : Bool) (f : A → B) {x : B} (y : A)
    → x ≡ f y
    → (if b then some x else none) ≡ map_option f (if b then some y else none)
if-map true f y e = ap some e
if-map false f y e = refl

-- The shared memory in which the current context has another memory.
abbrev pub with_current : Contexts → List ℕ → SharedMemory
with_current c m = shared (set_current m c)

pub copy_into-shared :
    (offset : ℕ) (value : List ℕ) (c : Contexts)
    → copy_into offset value (shared c) ≡ map_option (with_current c) (write offset value c.current)
unfolding copy_into write shared set_current
copy_into-shared offset value c =
    ap
      (λ m.
        if leb (offset + length value) (length m)
        then some (record (shared c) {
          buffer = overwrite (length (flat c.callers) + offset) value (flat c.callers ++ c.current);
        })
        else none)
      (context_memory-shared c)
    ∙ if-map _ (with_current c) (overwrite offset value c.current) (
        ap (λ buffer. record (shared c) { buffer = buffer })
          (overwrite-append (flat c.callers) c.current value offset))
