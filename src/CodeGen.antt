-- ===== src/CodeGen.antt =====
-- The bytecode generator: class `CodeGen` of cmd/vm/Generation.hh and Generation.cc. A method that
-- changes the generator takes it last and returns the new one, with its result where it has one.
-- Not here: `m_scope`, the stack of scopes, and `m_omem`, of which a literal records what was made.
mod Core
mod Load
mod Store
mod Control
unfoldable pub use Core.*
unfoldable pub use Load.*
unfoldable pub use Store.*
unfoldable pub use Control.*
