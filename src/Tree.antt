-- ===== src/Tree.antt =====
-- The syntax tree of cmd/vm/AST.hh: as the parser makes it (Syntax), and with what synthesis writes into its
-- nodes (Nodes); Synth has the synthesis of cmd/vm/Synth.cc.
pub mod Syntax
pub mod Nodes
pub mod Synth
