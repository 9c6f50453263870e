-- ===== src/Interpreter/Safety/Machine.antt =====
-- Proofs that the instructions on the memory keep the machine valid.
use Prim.Native.Nat.{max}
use sabvm.Prelude.{
  ℕ, ◌+◌, ◌%◌, ◌<◌, ◌≤◌, List, [], ◌∷◌, Option, some, ◌≡◌, refl, ap, ◌∙◌, ◌==◌, length, take, drop,
  arith, le→leb, be_bytes, from_be_bytes,
}
use sabvm.Prelude.Bytes.{length-be_bytes}
use sabvm.State.{U256, SpecId, cancun}
use sabvm.Gas.{memory_gas_for_len, verylow, base, verylowcopy_cost}
use sabvm.Interpreter.SharedMemory.{
  SharedMemory, memory_len, get_u256, set_u256, set_byte, set_memory, copy, overwrite,
}
use sabvm.Interpreter.SharedMemory.Contexts.{
  Contexts, shared, set_current, with_current, write, map_option,
}
use sabvm.Interpreter.SharedMemory.Frames.{
  read, perform, set_at, copy_within, slice-shared, set_memory-shared, copy-shared,
}
use sabvm.Interpreter.SharedMemory.Isolation.{length-overwrite, length-take, length-drop}
use sabvm.Interpreter.Machine.{Interpreter, set_top, push_value}
use sabvm.Interpreter.Instructions.{
  with_value, with_memory, mload, mstore, mstore8, msize, mcopy, mcopy_at,
}
use sabvm.Interpreter.Safety.{
  IsValid, Returns, Keeps, set_top-Keeps, gas_cost-Keeps, gas_or_fail-Keeps, check-Keeps,
  pop2-Keeps, pop3-Keeps, pop_top1-Keeps, as_usize_or_fail-Keeps, on_stack-Returns, done-Returns,
  if-Returns,
}
use sabvm.Interpreter.Safety.StackLimit.{push-Fits}
use sabvm.Interpreter.Safety.Accesses.{resize_memory-Keeps}

-- Another memory of the same length in the running context.
pub stored-Returns :
    (i : Interpreter) (c : Contexts)
    → IsValid i c
    → (o : Option SharedMemory) (m : List ℕ) → o ≡ some (with_current c m)
    → length m ≡ length c.current
    → Returns (with_memory o i) c
unfolding set_current
stored-Returns i c v o m e h = rw e (
  record i { shared_memory = with_current c m },
  m,
  refl,
  record {
    stack_fits = v.stack_fits;
    is_shared = refl;
    callers_fit = v.callers_fit;
    affordable = omega (arith, v.affordable, ap memory_gas_for_len h);
  },
)

pub writes :
    (offset : ℕ) (value m : List ℕ)
    → offset + length value ≤ length m
    → write offset value m ≡ some (overwrite offset value m)
unfolding write
writes offset value m h = rw (le→leb _ _ h) refl

pub set_at-some :
    (offset : ℕ) (value m : List ℕ)
    → 0 < length value
    → offset + length value ≤ length m
    → perform (set_at offset value) m ≡ some (overwrite offset value m)
unfolding perform
set_at-some offset value m p h = ground (arith, writes offset value m h)

pub read_there :
    (offset size : ℕ) (m : List ℕ)
    → offset + size ≤ length m
    → read offset size m ≡ some (take size (drop offset m))
unfolding read
read_there offset size m h = rw (le→leb _ _ h) refl

pub length-slice :
    (offset size : ℕ) (m : List ℕ)
    → offset + size ≤ length m
    → length (take size (drop offset m)) ≡ size
length-slice offset size m h =
    length-take size (drop offset m) (omega (arith, length-drop offset m))

copy_within-some :
    (dst src len : ℕ) (m : List ℕ)
    → src + len ≤ length m
    → dst + len ≤ length m
    → perform (copy_within dst src len) m ≡ some (overwrite dst (take len (drop src m)) m)
unfolding perform
copy_within-some dst src len m h k =
    rw (read_there src len m h)
      (writes dst (take len (drop src m)) m (omega (arith, length-slice src len m h)))

get_u256-shared :
    (offset : ℕ) (c : Contexts)
    → offset + 32 ≤ length c.current
    → get_u256 offset (shared c) ≡ some (from_be_bytes (take 32 (drop offset c.current)))
unfolding get_u256
get_u256-shared offset c h =
    rw (slice-shared offset 32 c ∙ read_there offset 32 c.current h, get_u256) refl

value-Returns :
    (i : Interpreter) (c : Contexts)
    → IsValid i c
    → (o : Option U256) (x : U256) → o ≡ some x
    → Returns (with_value o set_top i) c
value-Returns i c v o x e = rw e (set_top-Keeps x i c v)

module _ (i : Interpreter) (c : Contexts) (v : IsValid i c) where
  pub set_memory-Returns :
      (offset : ℕ) (value : List ℕ)
      → 0 < length value
      → offset + length value ≤ length c.current
      → Returns (with_memory (set_memory offset value i.shared_memory) i) c
  set_memory-Returns offset value p h =
      stored-Returns i c v _ (overwrite offset value c.current)
        (ap (set_memory offset value) v.is_shared
          ∙ set_memory-shared offset value c
          ∙ ap (map_option (with_current c)) (set_at-some offset value c.current p h))
        (length-overwrite offset value c.current h)

  get_u256-Returns :
      (offset : ℕ)
      → offset + 32 ≤ length c.current
      → Returns (with_value (get_u256 offset i.shared_memory) set_top i) c
  get_u256-Returns offset h =
      value-Returns i c v _ _ (ap (get_u256 offset) v.is_shared ∙ get_u256-shared offset c h)

  copy-Returns :
      (dst src len : ℕ)
      → max dst src + len ≤ length c.current
      → Returns (with_memory (copy dst src len i.shared_memory) i) c
  copy-Returns dst src len h =
      stored-Returns i c v _ (overwrite dst (take len (drop src c.current)) c.current)
        (ap (copy dst src len) v.is_shared
          ∙ copy-shared dst src len c
          ∙ ap (map_option (with_current c))
              (copy_within-some dst src len c.current (omega (arith, h)) (omega (arith, h))))
        (length-overwrite dst (take len (drop src c.current)) c.current
          (omega (arith, h, length-slice src len c.current)))

pub mload-Keeps : Keeps mload
unfolding mload
mload-Keeps = gas_cost-Keeps verylow _ (
    pop_top1-Keeps _ λ top.
      as_usize_or_fail-Keeps top _
        λ offset small. resize_memory-Keeps offset 32 _ λ i c v h. get_u256-Returns i c v offset h)

pub mstore-Keeps : Keeps mstore
unfolding mstore set_u256
mstore-Keeps = gas_cost-Keeps verylow _ (
    pop2-Keeps _ λ offset value. as_usize_or_fail-Keeps offset _ λ offset small.
      resize_memory-Keeps offset 32 _ λ i c v h.
        set_memory-Returns i c v offset (be_bytes 32 value)
          (omega (arith, length-be_bytes 32 value)) (omega (arith, h, length-be_bytes 32 value)))

pub mstore8-Keeps : Keeps mstore8
unfolding mstore8 set_byte
mstore8-Keeps = gas_cost-Keeps verylow _ (
    pop2-Keeps _ λ offset value. as_usize_or_fail-Keeps offset _ λ offset small.
      resize_memory-Keeps offset 1 _ λ i c v h.
        set_memory-Returns i c v offset (value % 256 ∷ []) (omega arith) (omega (arith, h)))

pub msize-Keeps : Keeps msize
unfolding msize push_value
msize-Keeps =
    gas_cost-Keeps base _ λ i c v.
      on_stack-Returns _ i c v (push-Fits (memory_len i.shared_memory) i.stack v.stack_fits)

mcopy_at-Keeps : (dst src : U256) (len : ℕ) → Keeps (mcopy_at dst src len)
unfolding mcopy_at
mcopy_at-Keeps dst src len = as_usize_or_fail-Keeps dst _ λ dst small.
    as_usize_or_fail-Keeps src _ λ src small.
      resize_memory-Keeps (max dst src) len _ λ i c v h. copy-Returns i c v dst src len h

pub mcopy-Keeps : (spec : SpecId) → Keeps (mcopy spec)
unfolding mcopy
mcopy-Keeps spec = check-Keeps spec cancun _ (
    pop3-Keeps _ λ dst src len. as_usize_or_fail-Keeps len _ λ len small.
      gas_or_fail-Keeps (verylowcopy_cost len) _
        λ i c v. if-Returns (len == 0) c (done-Returns i c v) (mcopy_at-Keeps dst src len i c v))
