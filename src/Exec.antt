-- ===== src/Exec.antt =====
-- src/interpreter.cpp: `Interpreter::Impl::execute_function`.
pub mod Machine
pub mod Flow
pub mod Variables
pub mod Access
pub mod Bulk
pub mod Numbers
pub mod Step
pub mod Run
pub mod Effect
pub mod Fuel
pub mod Jump
pub mod Quiet
pub mod Writes
pub mod Safety
pub mod Derivation
pub mod Adequacy
pub mod Typing
pub mod Settled
pub mod Endings
pub mod Hosted
