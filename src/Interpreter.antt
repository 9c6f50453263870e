-- ===== src/Interpreter.antt =====
-- The interpreter's machine (crates/interpreter): its stack, its memory, which all frames share, and
-- the instructions that work on them.
pub mod Results
pub mod Stack
pub mod Code
pub mod SharedMemory
pub mod Machine
pub mod SignedWords
pub mod Instructions
pub mod Table
pub mod Safety
pub mod Progress
pub mod Run
