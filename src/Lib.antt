-- ===== src/Lib.antt =====
-- Verification of the Sablier VM (sabvm), a fork of revm in which an account holds balances of many
-- native tokens.
--
-- The program executes EVM transactions. The interpreter (crates/interpreter) runs a frame and asks
-- its host for the state; the host keeps it in the journaled state
-- (crates/revm/src/journaled_state.rs), which loads accounts from a database on first use, records
-- every change in a journal, and takes the changes of a reverted frame back with it. The Native
-- Tokens precompile (crates/revm/src/sablier/native_tokens.rs) mints, burns and transfers tokens
-- through the journaled state. Gas is counted by crates/interpreter/src/gas.rs at the prices of
-- gas/calc.rs.
--
-- Files:
--   Prelude: shared names, lists over native numbers, machine words.
--   State: crates/primitives/src/state.rs (Account, AccountInfo, their balances) and the forks of
--     crates/primitives/src/specification.rs.
--   Journal: crates/revm/src/journaled_state.rs. Defs has the record JournaledState, the entries and
--     the monad M of its methods; Accounts, Storage, Tokens, Lifecycle and Revert have the methods,
--     each under its name in the source. View and Restore have the abstract view of a world and
--     its reversal; Undo has what it means that the journal undoes a piece of work, and the proofs
--     for the methods, of which Undo/Script makes the work of frames; Effects has the proofs about balances, slots, collisions and panics.
--   NativeTokens: the precompile, call_mut with the functions that it dispatches to, and the parsers
--     of crates/primitives/src/utilities.rs.
--   Gas: struct Gas and the price functions.
--   Interpreter: the machine of crates/interpreter. Stack and SharedMemory have the operations of
--     interpreter/stack.rs, function_stack.rs and interpreter/shared_memory.rs; Machine has the
--     fields of Interpreter that the instructions use and the macros of instructions/macros.rs;
--     SignedWords has instructions/i256.rs; Instructions has arithmetic.rs, bitwise.rs, stack.rs,
--     memory.rs, control.rs and system.rs; Table has their entries of opcode.rs. Code has legacy
--     bytecode, its analysis (interpreter/analysis.rs) and Contract (interpreter/contract.rs); Run
--     has the loop of interpreter.rs. SharedMemory/Contexts and Frames have the memories of the
--     frames as separate lists, and scripts of work on them; Safety has what a valid machine is, and
--     the proofs that each instruction keeps it so; Progress has the proofs that each spends gas and
--     keeps the instruction pointer in the code.
--   Bundle: an account of the bundle state (crates/revm/src/db/states): Slots and Account have the
--     data, Update has update_and_create_revert by the arms of its match, Values and Undone the
--     proofs that its revert undoes it; Cache has the accounts of cache_account.rs, whose operations
--     make the transitions.
--   Tests: runs of the model, and the properties at concrete inputs.
--
-- A method of JournaledState is a function of the state into Run: a value with the state after it,
-- an error of the database with the state that was reached, or a panic (an `unwrap` of nothing). The
-- state has the fields of the source. A vector that is used as a stack stands with its last element
-- first. A hash map is a function to options, but for the balances of an account, whose number of
-- entries the source reads, and the storage of an account of the bundle, whose entries it iterates
-- over: they are association lists. A `u64`, `usize` or `U256` is a native number, with its
-- wrap-around written out as in a release build. Loops are recursion on the list that they go over,
-- without fuel, but for three: the words of a slice and the analysis of the code recur on a length,
-- which bounds the number of their turns, and the loop of the interpreter has fuel, of which one more
-- than the gas and one to stop are enough, since each instruction that goes on spends gas.
--
-- An instruction is a function of the interpreter to an option, where nothing stands for an access
-- out of bounds: of the memory, or of the stack where the source reads or swaps its elements
-- unchecked, after a test of the length that is a step of its own here as there. A macro that returns early takes the rest of the instruction as an argument. The
-- instruction pointer is the bytes of the code from it on, so a jump takes them from the bytecode.
-- The table of instructions is a parameter of the loop, as in the source. A valid machine has too
-- little gas to pay for a memory of 2^54 units of gas, and its callers less than 2^40 bytes: with
-- more gas than any block has, sizes of memory would wrap around.
--
-- The database (trait Database) and keccak256 are parameters; theorems that need it suppose that the
-- database answers with machine integers (InRange). The view that a reversal restores leaves out
-- the cached code of an account, which its code hash names, and the touched flag of address 3, which
-- the source keeps on purpose; a balance of zero is the same in it whether or not it has an entry.
-- Work in the sense of Undo may panic, where an account is not loaded: what is said of its result
-- is said of the runs that return. The scripts of Undo/Script have no creation of an account and no
-- self-destruction, and they are given up after a mint of an id that was not known before, which a
-- reversal leaves known, and after code was set over other code, which a reversal does not bring
-- back.
--
-- Not modelled: the instructions of the host, of calls and of the object format, the hash, the frames
-- of crates/revm/src/context, the handlers, the bundle of all accounts and other databases, the
-- containers of the object format, the standard precompiles, the optimism feature, and all input and
-- output.
pub mod Prelude
pub mod State
pub mod Journal
pub mod NativeTokens
pub mod Gas
pub mod Interpreter
pub mod Bundle
pub mod Tests
