-- ===== src/Interpreter/Code.antt =====
-- `Bytecode` (crates/primitives/src/bytecode.rs and bytecode/legacy) without the object format, its
-- analysis (crates/interpreter/src/interpreter/analysis.rs), and `Contract`
-- (crates/interpreter/src/interpreter/contract.rs) without the hash of the code.
pub mod Jumps
pub mod Padding
use sabvm.Prelude.{
  ℕ, zero, suc, ◌+◌, ◌-◌, ◌%◌, Bool, true, false, not, List, [], ◌∷◌, ◌++◌, Option, none, some,
  ◌==◌, ltb, ◌&&◌, if◌then◌else◌, length, take, set, get_elem?, replicate,
}
use sabvm.State.{Address, unwrap_or}
use sabvm.Journal.{TokenTransfer}

-- One bit for each byte of the code.
abbrev pub JumpTable : Type 0
JumpTable = List Bool

unfoldable pub is_valid : ℕ → JumpTable → Bool
is_valid pc table = ltb pc (length table) && unwrap_or false (get_elem? table pc)

pub record LegacyAnalyzedBytecode : Type 0 where
  pub bytecode : List ℕ
  pub original_len : ℕ
  pub jump_table : JumpTable

pub data Bytecode : Type 0 where
  legacy_raw : List ℕ → Bytecode
  legacy_analyzed : LegacyAnalyzedBytecode → Bytecode

unfoldable pub legacy_jump_table : Bytecode → Option JumpTable
legacy_jump_table (legacy_analyzed analyzed) = some analyzed.jump_table
legacy_jump_table (legacy_raw bytes) = none

-- `Bytecode::bytecode`
unfoldable pub code_bytes : Bytecode → List ℕ
code_bytes (legacy_raw bytes) = bytes
code_bytes (legacy_analyzed analyzed) = analyzed.bytecode

-- `Bytecode::original_bytes`
unfoldable pub original_bytes : Bytecode → List ℕ
original_bytes (legacy_raw bytes) = bytes
original_bytes (legacy_analyzed analyzed) = take analyzed.original_len analyzed.bytecode

-- `Bytecode::len`
unfoldable pub code_len : Bytecode → ℕ
code_len (legacy_raw bytes) = length bytes
code_len (legacy_analyzed analyzed) = analyzed.original_len

unfoldable pub is_execution_ready : Bytecode → Bool
is_execution_ready (legacy_raw bytes) = false
is_execution_ready (legacy_analyzed analyzed) = true

abbrev pub jumpdest : ℕ
jumpdest = 0x5B

-- How far the iterator moves: over the opcode, and over what a PUSH instruction pushes. The offset
-- from `PUSH1` wraps around in a byte.
unfoldable pub iterator_step : ℕ → ℕ
iterator_step opcode =
    let push_offset = (opcode + 256 - 0x60) % 256 in
    if opcode == jumpdest then 1 else if ltb push_offset 32 then push_offset + 2 else 1

-- The loop of `analyze`, from the position of the iterator on.
unfoldable pub analyze_loop : ℕ → List ℕ → ℕ → JumpTable → JumpTable
unfolding iterator_step
analyze_loop zero code iterator jumps = jumps
analyze_loop (suc fuel) code iterator jumps = elim (get_elem? code iterator) [
  | none ↦ jumps
  | some opcode ↦
      analyze_loop fuel code (iterator + iterator_step opcode)
        (if opcode == jumpdest then set jumps iterator true else jumps)
]

-- Every turn moves the iterator on, so that the length of the code is fuel enough.
unfoldable pub analyze : List ℕ → JumpTable
unfolding analyze_loop
analyze code = analyze_loop (length code) code 0 (replicate (length code) false)

unfoldable pub to_analysed : Bytecode → Bytecode
unfolding analyze
to_analysed (legacy_analyzed analyzed) = legacy_analyzed analyzed
to_analysed (legacy_raw bytes) =
    let padded = bytes ++ replicate 33 0 in
    legacy_analyzed
      (record { bytecode = padded; original_len = length bytes; jump_table = analyze padded })

pub record Contract : Type 0 where
  pub input : List ℕ
  pub bytecode : Bytecode
  pub target_address : Address
  pub caller : Address
  pub call_values : List TokenTransfer

-- `Contract::new`
unfoldable pub new_contract : List ℕ → Bytecode → Address → Address → List TokenTransfer → Contract
unfolding to_analysed
new_contract input bytecode target_address caller call_values = record {
  input = input;
  bytecode = to_analysed bytecode;
  target_address = target_address;
  caller = caller;
  call_values = call_values;
}

unfoldable pub is_valid_jump : ℕ → Contract → Bool
unfolding legacy_jump_table is_valid
is_valid_jump pos contract = elim (legacy_jump_table contract.bytecode) [
  | none ↦ false
  | some table ↦ is_valid pos table
]
