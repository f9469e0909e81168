-- ===== src/Types.antt =====
-- The type checker: cmd/vm/Typecheck.cc, Typecheck.hh and TypeFlow.cc.
pub mod Store
pub mod Invocation
pub mod Subtype
pub mod Send
pub mod Check
pub mod Terms
pub mod Substitution
pub mod Hierarchy
pub mod Supertypes
pub mod Answers
pub mod Refines
pub mod Inherits
pub mod Blocks
pub mod Responds
pub mod Understood
pub mod Returns
pub mod Register
pub mod Registration
pub mod Entries
pub mod Inherited
