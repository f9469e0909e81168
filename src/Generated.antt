-- ===== src/Generated.antt =====
-- What the calls of the generator (cmd/vm/Generation.cc) leave in the code and in the literals.
pub mod Calls
pub mod Emit
pub mod Jumps
pub mod Literals
pub mod Patching
pub mod Printed
