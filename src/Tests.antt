-- ===== src/Tests.antt =====
-- Concrete runs of the model, and the properties at concrete inputs.
mod Data
mod Journal
mod Effects
mod NativeTokens
mod Gas
mod Interpreter
mod Run
mod Bundle
mod Totality
