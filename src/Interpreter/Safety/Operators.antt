-- ===== src/Interpreter/Safety/Operators.antt =====
-- Proofs that the instructions on words keep the machine valid.
use sabvm.State.{SpecId}
use sabvm.Gas.{exp_cost}
use sabvm.Interpreter.Machine.{Instruction}
use sabvm.Interpreter.Instructions.{exp}
use sabvm.Interpreter.Instructions.Operators.{
  IsOperator, one_operand, two_operands, three_operands, since,
}
use sabvm.Interpreter.Safety.{
  Keeps, gas_cost-Keeps, gas_or_fail-Keeps, check-Keeps, pop_top1-Keeps, pop_top2-Keeps,
  pop_top3-Keeps, set_top-Keeps,
}

pub operator-Keeps : {k : Instruction} → IsOperator k → Keeps k
operator-Keeps (one_operand cost f p) =
    gas_cost-Keeps cost _ (pop_top1-Keeps _ λ x. set_top-Keeps (f x))
operator-Keeps (two_operands cost f p) =
    gas_cost-Keeps cost _ (pop_top2-Keeps _ λ x y. set_top-Keeps (f x y))
operator-Keeps (three_operands cost f p) =
    gas_cost-Keeps cost _ (pop_top3-Keeps _ λ x y z. set_top-Keeps (f x y z))
operator-Keeps (since spec min k h) = check-Keeps spec min k (operator-Keeps h)

pub exp-Keeps : (spec : SpecId) → Keeps (exp spec)
unfolding exp
exp-Keeps spec =
    pop_top2-Keeps _ λ op1 op2. gas_or_fail-Keeps (exp_cost spec op2) _ (set_top-Keeps _)
