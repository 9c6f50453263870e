-- ===== src/NativeTokens.antt =====
-- The Native Tokens precompile (crates/revm/src/sablier/native_tokens.rs).
mod Bytes
mod Monad
mod Calls
mod Arrays
mod Dispatch
unfoldable pub use Bytes.*
unfoldable pub use Monad.*
unfoldable pub use Calls.*
unfoldable pub use Arrays.*
unfoldable pub use Dispatch.*
pub mod Guards
pub mod Answers
pub mod Encoding
