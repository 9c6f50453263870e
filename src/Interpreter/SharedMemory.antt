-- ===== src/Interpreter/SharedMemory.antt =====
-- `SharedMemory` (crates/interpreter/src/interpreter/shared_memory.rs, without the feature
-- `memory_limit`). `none` is an access out of bounds, which the source calls unreachable.
pub mod Contexts
pub mod Frames
pub mod Isolation
pub mod Words
use sabvm.Prelude.{
  ℕ, ◌+◌, ◌-◌, ◌%◌, u64_mod, List, [], ◌∷◌, ◌++◌, Option, none, some, ◌==◌, leb, if◌then◌else◌,
  length, take, drop, replicate, min, be_bytes, from_be_bytes,
}
use sabvm.State.{U256}
use sabvm.Gas.{memory_gas_for_len}

-- The buffer in the order of its addresses; the newest checkpoint first.
pub record SharedMemory : Type 0 where
  pub buffer : List ℕ
  pub checkpoints : List ℕ
  pub last_checkpoint : ℕ

unfoldable pub new_memory : SharedMemory
new_memory = record { buffer = []; checkpoints = []; last_checkpoint = 0 }

-- `checkpoints.last().cloned().unwrap_or_default()`
unfoldable pub last_or_zero : List ℕ → ℕ
last_or_zero [] = 0
last_or_zero (c ∷ checkpoints) = c

unfoldable pub new_context : SharedMemory → SharedMemory
new_context m = record m {
  checkpoints = length m.buffer ∷ m.checkpoints;
  last_checkpoint = length m.buffer;
}

unfoldable pub free_context : SharedMemory → SharedMemory
unfolding last_or_zero
free_context m = elim m.checkpoints [
  | [] ↦ m
  | old_checkpoint ∷ checkpoints ↦ record {
    buffer = take old_checkpoint m.buffer;
    checkpoints = checkpoints;
    last_checkpoint = last_or_zero checkpoints;
  }
]

-- `SharedMemory::len`
unfoldable pub memory_len : SharedMemory → ℕ
memory_len m = length m.buffer - m.last_checkpoint

unfoldable pub current_expansion_cost : SharedMemory → ℕ
unfolding memory_len
current_expansion_cost m = memory_gas_for_len (memory_len m)

-- `Vec::resize` with zeros. Other sums of offsets are below the length of a buffer, so only this one
-- keeps its wrap-around.
unfoldable pub resize_buffer : ℕ → List ℕ → List ℕ
resize_buffer new_len buffer =
    if leb new_len (length buffer)
    then take new_len buffer
    else buffer ++ replicate (new_len - length buffer) 0

unfoldable pub resize : ℕ → SharedMemory → SharedMemory
resize new_size m = record m {
  buffer = resize_buffer ((m.last_checkpoint + new_size) % u64_mod) m.buffer;
}

unfoldable pub context_memory : SharedMemory → List ℕ
context_memory m = drop m.last_checkpoint m.buffer

-- `slice`, by the bounds of the context's memory
unfoldable pub slice : ℕ → ℕ → SharedMemory → Option (List ℕ)
slice offset size m =
    if leb (offset + size) (length (context_memory m))
    then some (take size (drop offset (context_memory m)))
    else none

-- The bytes from `start` on are overwritten.
unfoldable pub overwrite : ℕ → List ℕ → List ℕ → List ℕ
overwrite start value buffer = take start buffer ++ (value ++ drop (start + length value) buffer)

-- `slice_mut(offset, value.len()).copy_from_slice(value)`
unfoldable pub copy_into : ℕ → List ℕ → SharedMemory → Option SharedMemory
copy_into offset value m =
    if leb (offset + length value) (length (context_memory m))
    then some (record m { buffer = overwrite (m.last_checkpoint + offset) value m.buffer })
    else none

-- `SharedMemory::set`
unfoldable pub set_memory : ℕ → List ℕ → SharedMemory → Option SharedMemory
set_memory offset value m = if length value == 0 then some m else copy_into offset value m

unfoldable pub set_byte : ℕ → ℕ → SharedMemory → Option SharedMemory
unfolding set_memory
set_byte offset byte m = set_memory offset (byte ∷ []) m

unfoldable pub set_u256 : ℕ → U256 → SharedMemory → Option SharedMemory
unfolding set_memory
set_u256 offset value m = set_memory offset (be_bytes 32 value) m

unfoldable pub get_u256 : ℕ → SharedMemory → Option U256
get_u256 offset m = elim (slice offset 32 m) [ none ↦ none | some word ↦ some (from_be_bytes word) ]

-- The two writes of `set_data`: the data that there is, then zeros.
unfoldable pub set_data : ℕ → ℕ → ℕ → List ℕ → SharedMemory → Option SharedMemory
set_data memory_offset data_offset len bytes m =
    if leb (length bytes) data_offset
    then copy_into memory_offset (replicate len 0) m
    else let data_end = min (data_offset + len) (length bytes) in
      let data_len = data_end - data_offset in
      elim (copy_into memory_offset (take data_len (drop data_offset bytes)) m) [
        | none ↦ none
        | some m' ↦ copy_into (memory_offset + data_len) (replicate (len - data_len) 0) m'
      ]

-- `copy_within` reads before it writes.
unfoldable pub copy : ℕ → ℕ → ℕ → SharedMemory → Option SharedMemory
copy dst src len m = elim (slice src len m) [ none ↦ none | some bytes ↦ copy_into dst bytes m ]
