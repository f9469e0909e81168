-- ===== src/Compile.antt =====
-- Code generation from the tree: the `generateOn` methods of cmd/vm/AST.cc, over the generator of Generation.cc.
pub mod State
pub mod Vars
pub mod Messages
pub mod Generate
pub mod Landing
pub mod Leads
pub mod Shapes
pub mod Jumps
pub mod Layout
pub mod Emits
pub mod Parts
pub mod Primitives
pub mod Idents
pub mod WellFormed
pub mod Bodies
pub mod Programs
pub mod Promotable
pub mod Source
pub mod FrontEnd
