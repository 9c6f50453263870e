-- ===== src/Interpreter/Safety/Control.antt =====
-- Proofs that the instructions for control flow keep the machine valid.
use sabvm.Prelude.{
  ℕ, ◌+◌, ◌-◌, ◌≤◌, List, [], Option, some, ◌≡◌, refl, ap, ◌∙◌, ◌==◌, length, drop, take,
}
use sabvm.State.{U256, SpecId, byzantium}
use sabvm.Gas.{base, mid, high}
use sabvm.Gas
use sabvm.Interpreter.Results.{InstructionResult, invalid_jump, return, revert}
use sabvm.Interpreter.Code.{is_valid_jump}
use sabvm.Interpreter.SharedMemory.{slice}
use sabvm.Interpreter.SharedMemory.Contexts.{Contexts, set_current}
use sabvm.Interpreter.SharedMemory.Frames.{slice-shared}
use sabvm.Interpreter.Machine.{Interpreter, push_value, return_action}
use sabvm.Interpreter.Instructions.{
  jump_to, jump_inner, jump, jumpi, jumpdest_or_nop, program_counter, pc, returned, return_inner,
  ret, revert_frame, halt, invalid, unknown,
}
use sabvm.Interpreter.Safety.{
  IsValid, Returns, Keeps, gas_cost-Keeps, check-Keeps, pop1-Keeps, pop2-Keeps,
  as_usize_or_fail-Keeps, as_usize_or_fail_ret-Keeps, on_stack-Returns, done-Returns, fail-Returns,
  if-Returns, with_stack,
}
use sabvm.Interpreter.Safety.StackLimit.{push-Fits}
use sabvm.Interpreter.Safety.Accesses.{resize_memory-Keeps}
use sabvm.Interpreter.Safety.Machine.{read_there}

jump_to-Keeps : (target : ℕ) → Keeps (jump_to target)
unfolding jump_to
jump_to-Keeps target i c v =
    if-Returns (is_valid_jump target i.contract) c
      (done-Returns _ c (
        with_stack i c v i.stack v.stack_fits i.instruction_result (drop target i.bytecode)
          i.function_stack))
      (fail-Returns i c v invalid_jump)

jump_inner-Keeps : (target : U256) → Keeps (jump_inner target)
unfolding jump_inner
jump_inner-Keeps target =
    as_usize_or_fail_ret-Keeps invalid_jump target _ λ n small. jump_to-Keeps n

pub jump-Keeps : Keeps jump
unfolding jump
jump-Keeps = gas_cost-Keeps mid _ (pop1-Keeps _ jump_inner-Keeps)

pub jumpi-Keeps : Keeps jumpi
unfolding jumpi
jumpi-Keeps = gas_cost-Keeps high _ (
    pop2-Keeps _ λ target cond i c v.
      if-Returns (cond == 0) c (done-Returns i c v) (jump_inner-Keeps target i c v))

pub jumpdest_or_nop-Keeps : Keeps jumpdest_or_nop
unfolding jumpdest_or_nop
jumpdest_or_nop-Keeps = gas_cost-Keeps Gas.jumpdest _ done-Returns

pub push_value-Keeps : (x : U256) → Keeps (push_value x)
unfolding push_value
push_value-Keeps x i c v = on_stack-Returns _ i c v (push-Fits x i.stack v.stack_fits)

pub pc-Keeps : Keeps pc
unfolding pc
pc-Keeps = gas_cost-Keeps base _ λ i c v. push_value-Keeps (program_counter i - 1) i c v

returned-Returns :
    (result : InstructionResult) (o : Option (List ℕ)) (output : List ℕ)
    → o ≡ some output
    → (i : Interpreter) (c : Contexts) → IsValid i c
    → Returns (returned result o i) c
unfolding returned set_current
returned-Returns result o output e i c v = rw e (
  record i {
    instruction_result = result;
    next_action = return_action (record { result = result; output = output; gas = i.gas });
  },
  c.current,
  refl,
  record {
    stack_fits = v.stack_fits;
    is_shared = v.is_shared;
    callers_fit = v.callers_fit;
    affordable = v.affordable;
  },
)

pub slice-some :
    (i : Interpreter) (c : Contexts)
    → IsValid i c
    → (offset len : ℕ) → offset + len ≤ length c.current
    → slice offset len i.shared_memory ≡ some (take len (drop offset c.current))
slice-some i c v offset len h =
    ap (slice offset len) v.is_shared
    ∙ slice-shared offset len c
    ∙ read_there offset len c.current h

return_inner-Keeps : (result : InstructionResult) → Keeps (return_inner result)
unfolding return_inner
return_inner-Keeps result = pop2-Keeps _ λ offset len.
    as_usize_or_fail-Keeps len _ λ len small i c v.
      if-Returns (len == 0) c (returned-Returns result _ [] refl i c v) (
        as_usize_or_fail-Keeps offset _
          (λ offset small.
            resize_memory-Keeps offset len _
              λ i c v h. returned-Returns result _ _ (slice-some i c v offset len h) i c v)
          i c v)

pub ret-Keeps : Keeps ret
unfolding ret
ret-Keeps = return_inner-Keeps return

pub revert_frame-Keeps : (spec : SpecId) → Keeps (revert_frame spec)
unfolding revert_frame
revert_frame-Keeps spec = check-Keeps spec byzantium _ (return_inner-Keeps revert)

pub halt-Keeps : Keeps halt
unfolding halt
halt-Keeps i c v = fail-Returns i c v _

pub invalid-Keeps : Keeps invalid
unfolding invalid
invalid-Keeps i c v = fail-Returns i c v _

pub unknown-Keeps : Keeps unknown
unfolding unknown
unknown-Keeps i c v = fail-Returns i c v _
