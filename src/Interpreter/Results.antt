-- ===== src/Interpreter/Results.antt =====
-- `InstructionResult` (crates/interpreter/src/instruction_result.rs), with its three classes.
use sabvm.Prelude.{Bool, true, false}

pub data InstructionResult : Type 0 where
  -- success codes
  continue : InstructionResult
  stop : InstructionResult
  return : InstructionResult
  self_destruct : InstructionResult
  return_contract : InstructionResult
  -- revert codes
  revert : InstructionResult
  call_too_deep : InstructionResult
  out_of_funds : InstructionResult
  -- actions
  call_or_create : InstructionResult
  -- error codes
  out_of_gas : InstructionResult
  memory_oog : InstructionResult
  memory_limit_oog : InstructionResult
  precompile_oog : InstructionResult
  invalid_operand_oog : InstructionResult
  opcode_not_found : InstructionResult
  call_not_allowed_inside_static : InstructionResult
  state_change_during_static_call : InstructionResult
  invalid_fe_opcode : InstructionResult
  invalid_jump : InstructionResult
  not_activated : InstructionResult
  stack_underflow : InstructionResult
  stack_overflow : InstructionResult
  out_of_offset : InstructionResult
  create_collision : InstructionResult
  overflow_payment : InstructionResult
  precompile_error : InstructionResult
  nonce_overflow : InstructionResult
  create_contract_size_limit : InstructionResult
  create_contract_starting_with_ef : InstructionResult
  create_init_code_size_limit : InstructionResult
  fatal_external_error : InstructionResult
  return_contract_in_not_init_eof : InstructionResult
  eof_opcode_disabled_in_legacy : InstructionResult
  eof_function_stack_overflow : InstructionResult
  unauthorized_caller : InstructionResult

-- `return_ok!`
unfoldable pub is_ok : InstructionResult → Bool
is_ok continue = true
is_ok stop = true
is_ok return = true
is_ok self_destruct = true
is_ok return_contract = true
is_ok other = false

-- `return_revert!`
unfoldable pub is_revert : InstructionResult → Bool
is_revert revert = true
is_revert call_too_deep = true
is_revert out_of_funds = true
is_revert other = false

-- `return_error!`, which does not name `UnauthorizedCaller`.
unfoldable pub is_error : InstructionResult → Bool
is_error continue = false
is_error stop = false
is_error return = false
is_error self_destruct = false
is_error return_contract = false
is_error revert = false
is_error call_too_deep = false
is_error out_of_funds = false
is_error call_or_create = false
is_error unauthorized_caller = false
is_error other = true
