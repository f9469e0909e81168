-- ===== src/Interpreter.antt =====
-- The interpreter of cmd/vm/Interpreter.cc: contexts, and the dispatch loop of `execute`.
pub mod State
pub mod Contexts
pub mod Loads
pub mod Sends
pub mod Step
pub mod Preemption
pub mod Jumping
pub mod Calls
pub mod Callers
