-- ===== src/Embed.antt =====
-- src/interpreter.cpp: the embedder's side of `Interpreter::Impl`.
pub mod Registry
pub mod Instantiate
pub mod Invoke
pub mod Wasi
pub mod Polite
pub mod Written
pub mod Keys
pub mod Calls
pub mod Functions
