-- ===== src/Interpreter/Safety/System.antt =====
-- Proofs that the instructions on the environment of a frame keep the machine valid.
use sabvm.Prelude.{
  ℕ, ◌+◌, ◌-◌, ◌≤◌, List, [], ◌∷◌, some, ◌≡◌, sym, ap, ◌∙◌, ◌==◌, ltb, leb, length, take, drop,
  replicate, min, arith, Bool-cases, inl, inr, from_be_bytes, zero, suc, length-replicate,
  if◌then◌else◌,
}
use sabvm.State.{U256, SpecId, byzantium}
use sabvm.Gas.{base, verylow, verylowcopy_cost, saturating_add64}
use sabvm.Interpreter.Results.{out_of_offset}
use sabvm.Interpreter.Code.{original_bytes, code_len}
use sabvm.Interpreter.SharedMemory.{set_data, set_memory, overwrite}
use sabvm.Interpreter.SharedMemory.Contexts.{Contexts, with_current, map_option, write}
use sabvm.Interpreter.SharedMemory.Frames.{perform, set_data_at, set_data-shared, ◌then_memory◌}
use sabvm.Interpreter.SharedMemory.Isolation.{length-overwrite, length-take, length-drop}
use sabvm.Interpreter.Machine.{Interpreter, Instruction, fail, set_top, as_usize_saturated}
use sabvm.Interpreter.Instructions.{
  with_memory, address, caller, codesize, copy_data, codecopy, input_word, calldataload,
  calldatasize, base_amount, callvalue, calldatacopy, returndatasize, copy_return_data,
  returndatacopy, returndataload, gas_left,
}
use sabvm.Interpreter.Safety.{
  IsValid, Returns, Keeps, gas_cost-Keeps, gas_or_fail-Keeps, check-Keeps, require_eof-Keeps,
  pop3-Keeps, pop_top1-Keeps, set_top-Keeps, as_usize_or_fail-Keeps, done-Returns, fail-Returns,
  if-Returns,
}
use sabvm.Interpreter.Safety.Accesses.{resize_memory-Keeps}
use sabvm.Interpreter.Safety.Machine.{stored-Returns, set_memory-Returns, writes}
use sabvm.Interpreter.Safety.Control.{push_value-Keeps}

pub address-Keeps : Keeps address
unfolding address
address-Keeps = gas_cost-Keeps base _ λ i c v. push_value-Keeps i.contract.target_address i c v

pub caller-Keeps : Keeps caller
unfolding caller
caller-Keeps = gas_cost-Keeps base _ λ i c v. push_value-Keeps i.contract.caller i c v

pub codesize-Keeps : Keeps codesize
unfolding codesize
codesize-Keeps =
    gas_cost-Keeps base _ λ i c v. push_value-Keeps (code_len i.contract.bytecode) i c v

pub calldatasize-Keeps : Keeps calldatasize
unfolding calldatasize
calldatasize-Keeps = gas_cost-Keeps base _ λ i c v. push_value-Keeps (length i.contract.input) i c v

pub callvalue-Keeps : Keeps callvalue
unfolding callvalue
callvalue-Keeps =
    gas_cost-Keeps base _ λ i c v. push_value-Keeps (base_amount i.contract.call_values) i c v

pub gas_left-Keeps : Keeps gas_left
unfolding gas_left
gas_left-Keeps = gas_cost-Keeps base _ λ i c v. push_value-Keeps i.gas.remaining i c v

pub returndatasize-Keeps : (spec : SpecId) → Keeps (returndatasize spec)
unfolding returndatasize
returndatasize-Keeps spec =
    check-Keeps spec byzantium _
      (gas_cost-Keeps base _ λ i c v. push_value-Keeps (length i.return_data_buffer) i c v)

pub calldataload-Keeps : Keeps calldataload
unfolding calldataload
calldataload-Keeps = gas_cost-Keeps verylow _ (
    pop_top1-Keeps _
      λ offset i c v. set_top-Keeps (input_word (as_usize_saturated offset) i.contract.input) i c v)

abbrev data_loaded : ℕ → Instruction
data_loaded offset i =
    if ltb (length i.return_data_buffer) (saturating_add64 offset 32)
    then fail out_of_offset i
    else set_top (from_be_bytes (take 32 (drop offset i.return_data_buffer))) i

pub returndataload-Keeps : Keeps returndataload
unfolding returndataload
returndataload-Keeps = require_eof-Keeps _ (
    gas_cost-Keeps verylow _ (
      pop_top1-Keeps _ λ offset. as_usize_or_fail-Keeps offset data_loaded λ offset small i c v.
        if-Returns (ltb (length i.return_data_buffer) (saturating_add64 offset 32)) c
          (fail-Returns i c v out_of_offset)
          (set_top-Keeps (from_be_bytes (take 32 (drop offset i.return_data_buffer))) i c v)))

-- The two writes of `set_data`, the second behind the first.
two_writes :
    (i : ℕ) (a b m : List ℕ)
    → i + length a + length b ≤ length m
    → (write i a m then_memory write (i + length a) b)
      ≡ some (overwrite (i + length a) b (overwrite i a m))
two_writes i a b m h =
    ap (λ o. o then_memory write (i + length a) b) (writes i a m (omega arith))
    ∙ writes (i + length a) b (overwrite i a m) (omega (arith, length-overwrite i a m))

set_data_at-some :
    (memory_offset data_offset len : ℕ) (bytes m : List ℕ)
    → memory_offset + len ≤ length m
    → (m' : List ℕ) × (perform (set_data_at memory_offset data_offset len bytes) m ≡ some m')
      × (length m' ≡ length m)
unfolding perform
set_data_at-some memory_offset data_offset len bytes m h =
    elim (Bool-cases (leb (length bytes) data_offset)) [
      | inl e ↦
          let z = length-replicate {A = ℕ} len 0 in
          (
            overwrite memory_offset (replicate len 0) m,
            rw e (writes memory_offset (replicate len 0) m (omega (arith, z))),
            length-overwrite memory_offset (replicate len 0) m (omega (arith, z)),
          )
      | inr e ↦
          let n = min (data_offset + len) (length bytes) - data_offset in
          let first = take n (drop data_offset bytes) in
          let l =
            length-take n (drop data_offset bytes) (omega (arith, length-drop data_offset bytes)) in
          let z = length-replicate {A = ℕ} (len - n) 0 in
          (
            overwrite (memory_offset + n) (replicate (len - n) 0) (overwrite memory_offset first m),
            rw e (
                ap
                  (λ k.
                    write memory_offset first m
                    then_memory write (memory_offset + k) (replicate (len - n) 0))
                  (sym l)
                ∙ two_writes memory_offset first (replicate (len - n) 0) m (omega (arith, l, z))
                ∙ ap
                    (λ k. some (
                      overwrite (memory_offset + k) (replicate (len - n) 0)
                        (overwrite memory_offset first m)))
                    l),
            length-overwrite (memory_offset + n) (replicate (len - n) 0)
                  (overwrite memory_offset first m)
                  (omega (arith, z, l, length-overwrite memory_offset first m (omega (arith, l))))
                ∙ length-overwrite memory_offset first m (omega (arith, l)),
          )
    ]

set_data-Returns :
    (i : Interpreter) (c : Contexts)
    → IsValid i c
    → (memory_offset data_offset len : ℕ) (bytes : List ℕ) → memory_offset + len ≤ length c.current
    → Returns (with_memory (set_data memory_offset data_offset len bytes i.shared_memory) i) c
set_data-Returns i c v memory_offset data_offset len bytes h =
    let (m, e, l) = set_data_at-some memory_offset data_offset len bytes c.current h in
    stored-Returns i c v _ m
      (ap (set_data memory_offset data_offset len bytes) v.is_shared
        ∙ set_data-shared memory_offset data_offset len bytes c
        ∙ ap (map_option (with_current c)) e)
      l

copy_data-Keeps : (source : Interpreter → List ℕ) → Keeps (copy_data source)
unfolding copy_data
copy_data-Keeps source = pop3-Keeps _ λ memory_offset data_offset len.
    as_usize_or_fail-Keeps len _ λ len small. gas_or_fail-Keeps (verylowcopy_cost len) _ λ i c v.
      if-Returns (len == 0) c (done-Returns i c v) (
        as_usize_or_fail-Keeps memory_offset _
          (λ memory_offset small. resize_memory-Keeps memory_offset len _ λ i c v h.
            set_data-Returns i c v memory_offset (as_usize_saturated data_offset) len (source i) h)
          i c v)

pub codecopy-Keeps : Keeps codecopy
unfolding codecopy
codecopy-Keeps = copy_data-Keeps λ i. original_bytes i.contract.bytecode

pub calldatacopy-Keeps : Keeps calldatacopy
unfolding calldatacopy
calldatacopy-Keeps = copy_data-Keeps λ i. i.contract.input

-- The write of bytes of which there may be none.
set_any-Returns :
    (i : Interpreter) (c : Contexts)
    → IsValid i c
    → (offset : ℕ) (value : List ℕ) → offset + length value ≤ length c.current
    → Returns (with_memory (set_memory offset value i.shared_memory) i) c
unfolding set_memory
set_any-Returns i c v offset [] h = done-Returns i c v
set_any-Returns i c v offset (b ∷ value) h =
    set_memory-Returns i c v offset (b ∷ value) (omega arith) h

length-take_le : (n : ℕ) (xs : List ℕ) → length (take n xs) ≤ n
length-take_le zero xs = omega arith
length-take_le (suc n) [] = omega arith
length-take_le (suc n) (x ∷ xs) = omega (arith, length-take_le n xs)

saturated_end : (a len : ℕ) → saturating_add64 a len - a ≤ len
unfolding saturating_add64
saturated_end a len = ground arith

copy_return_data-Keeps :
    (memory_offset offset : U256) (len : ℕ) → Keeps (copy_return_data memory_offset offset len)
unfolding copy_return_data
copy_return_data-Keeps memory_offset offset len i c v =
    let data_offset = as_usize_saturated offset in
    let data_end = saturating_add64 data_offset len in
    if-Returns (ltb (length i.return_data_buffer) data_end) c (fail-Returns i c v out_of_offset) (
      if-Returns (len == 0) c (done-Returns i c v) (
        as_usize_or_fail-Keeps memory_offset _
          (λ memory_offset small. resize_memory-Keeps memory_offset len _ λ i c v h.
            set_any-Returns i c v memory_offset
              (take (data_end - data_offset) (drop data_offset i.return_data_buffer))
              (omega (
                arith,
                h,
                saturated_end data_offset len,
                length-take_le (data_end - data_offset) (drop data_offset i.return_data_buffer),
              )))
          i c v))

pub returndatacopy-Keeps : (spec : SpecId) → Keeps (returndatacopy spec)
unfolding returndatacopy
returndatacopy-Keeps spec = check-Keeps spec byzantium _ (
    pop3-Keeps _ λ memory_offset offset len. as_usize_or_fail-Keeps len _ λ len small.
      gas_or_fail-Keeps (verylowcopy_cost len) _ (copy_return_data-Keeps memory_offset offset len))
