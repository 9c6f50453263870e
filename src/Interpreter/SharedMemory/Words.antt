-- ===== src/Interpreter/SharedMemory/Words.antt =====
-- Proofs about a word that is read after it was written.
use sabvm.Prelude.{
  ℕ, zero, suc, ◌+◌, ◌<◌, ◌≤◌, ◌^◌, List, [], ◌∷◌, ◌++◌, none, some, ◌≡◌, refl, ap, sym, ◌∙◌, arith,
  leb, le→leb, length, take, drop, be_bytes, from_be_bytes, take-append, some_inj, Bool-cases, inl,
  inr, leb→le,
}
use sabvm.Prelude.Bytes.{length-be_bytes, from_be_bytes-be_bytes}
use sabvm.Interpreter.SharedMemory.{SharedMemory, set_u256, get_u256, overwrite}
use sabvm.Interpreter.SharedMemory.Contexts.{
  Contexts, shared, set_current, with_current, write, map_option,
}
use sabvm.Interpreter.SharedMemory.Frames.{read, slice-shared, set_memory-shared, perform, set_at}
use sabvm.Interpreter.SharedMemory.Isolation.{length-overwrite}

drop-take_append : (n : ℕ) (m ys : List ℕ) → n ≤ length m → drop n (take n m ++ ys) ≡ ys
drop-take_append zero m ys h = refl
drop-take_append (suc n) [] ys h = absurd (omega arith)
drop-take_append (suc n) (x ∷ m) ys h = drop-take_append n m ys (omega arith)

take-length : (xs ys : List ℕ) (n : ℕ) → length xs ≡ n → take n (xs ++ ys) ≡ xs
take-length xs ys n e = ap (λ k. take k (xs ++ ys)) (sym e) ∙ take-append xs ys

none-some : {m : SharedMemory} → none ≡ some m → ⊥
none-some e = cc

overwritten :
    (n : ℕ) (value m : List ℕ)
    → n ≤ length m
    → take (length value) (drop n (overwrite n value m)) ≡ value
unfolding overwrite
overwritten n value m h =
    ap (take (length value)) (drop-take_append n m (value ++ drop (n + length value) m) h)
    ∙ take-append value (drop (n + length value) m)

read-overwrite :
    (n : ℕ) (value m : List ℕ)
    → n + length value ≤ length m
    → read n (length value) (overwrite n value m) ≡ some value
unfolding read
read-overwrite n value m h =
    rw
      (le→leb (n + length value) (length (overwrite n value m))
        (omega (arith, length-overwrite n value m h)))
      (ap some (overwritten n value m (omega arith)))

set_at-write :
    (n : ℕ) (value m : List ℕ) → 0 < length value → perform (set_at n value) m ≡ write n value m
unfolding perform
set_at-write n value m h = ground arith

write_inv :
    (f : List ℕ → SharedMemory) (n : ℕ) (value cur : List ℕ) {m : SharedMemory}
    → map_option f (write n value cur) ≡ some m
    → (n + length value ≤ length cur) × (m ≡ f (overwrite n value cur))
unfolding write
write_inv f n value cur e = elim (Bool-cases (leb (n + length value) (length cur))) [
  | inl p ↦ (leb→le _ _ p, sym (some_inj (rw p at e)))
  | inr p ↦ absurd (none-some (rw p at e))
]

set_u256-write :
    (offset value : ℕ) (c : Contexts)
    → set_u256 offset value (shared c)
      ≡ map_option (with_current c) (write offset (be_bytes 32 value) c.current)
unfolding set_u256
set_u256-write offset value c =
    set_memory-shared offset (be_bytes 32 value) c
    ∙ ap (map_option (with_current c)) (
        set_at-write offset (be_bytes 32 value) c.current (omega (arith, length-be_bytes 32 value)))

get_u256-read :
    (offset : ℕ) (c : Contexts) (word : List ℕ)
    → read offset 32 c.current ≡ some word
    → get_u256 offset (shared c) ≡ some (from_be_bytes word)
unfolding get_u256
get_u256-read offset c word e = rw (slice-shared offset 32 c ∙ e, get_u256) refl

-- What `set_u256` has written in the memory of the running context, `get_u256` reads. The value is a
-- 256-bit word.
pub get_u256-set_u256 :
    (offset value : ℕ) (c : Contexts) (m : SharedMemory)
    → value < 2 ^ 256
    → set_u256 offset value (shared c) ≡ some m
    → get_u256 offset m ≡ some value
unfolding set_current
get_u256-set_u256 offset value c m h e =
    let bytes = be_bytes 32 value in
    let (fits, is_m) =
      write_inv (with_current c) offset bytes c.current (sym (set_u256-write offset value c) ∙ e) in
    ap (get_u256 offset) is_m
    ∙ get_u256-read offset (set_current (overwrite offset bytes c.current) c) bytes (
        ap (λ n. read offset n (overwrite offset bytes c.current)) (sym (length-be_bytes 32 value))
        ∙ read-overwrite offset bytes c.current fits)
    ∙ ap some (from_be_bytes-be_bytes 32 value h)
