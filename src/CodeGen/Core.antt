-- ===== src/CodeGen/Core.antt =====
-- Class `CodeGen` of cmd/vm/Generation.hh and Generation.cc: its state, the bytes it appends, its literals
-- and its registers.
use valutron.Prelude.{ℕ, ◌+◌, ◌-◌, ◌%◌, Bool, List, [], ◌∷◌, ◌++◌, length}
use valutron.Prelude.Int.{ℤ}
use valutron.Bytecode.{Opcode, byte_of}

-- The bytes of a `std::string`.
abbrev pub Name : Type 0
Name = List ℕ

abbrev pub RegisterId : Type 0
RegisterId = ℕ

-- What a literal slot holds: the symbol of a name, a fresh send cache for a selector, a small integer, a
-- character, a string, nil, or another object made by the caller (a block).
pub data Literal : Type 0 where
  symbol : Name → Literal
  cache : Name → Literal
  integer : ℤ → Literal
  character : ℕ → Literal
  string : Name → Literal
  no_object : Literal
  object : ℕ → Literal

pub record CodeGen : Type 0 where
  pub bytecode : List ℕ
  pub literals : List Literal
  pub is_block : Bool
  pub reg : RegisterId
  pub n_args : ℕ
  pub n_locals : ℕ

-- The constructor: the first free register lies behind self, the arguments and the locals.
unfoldable pub new_code_gen : ℕ → ℕ → Bool → CodeGen
new_code_gen n_args n_locals is_block = record {
  bytecode = [];
  literals = [];
  is_block = is_block;
  reg = n_args + n_locals + 1;
  n_args = n_args;
  n_locals = n_locals;
}

unfoldable pub local_index : CodeGen → ℕ → ℕ
local_index c idx = c.n_args + idx

unfoldable pub n_regs : CodeGen → ℕ
n_regs c = c.reg

-- A parameter of type `uint8_t` keeps the low byte of the argument.
abbrev pub u8 : ℕ → ℕ
u8 n = n % 256

unfoldable pub gen_code : ℕ → CodeGen → CodeGen
gen_code code c = record c { bytecode = c.bytecode ++ u8 code ∷ [] }

-- The four overloads of `gen`, by their number of operands.
unfoldable pub gen : Opcode → CodeGen → CodeGen
unfolding gen_code
gen op c = gen_code (byte_of op) c

unfoldable pub gen_1 : Opcode → ℕ → CodeGen → CodeGen
unfolding gen_code
gen_1 op arg1 c = gen_code arg1 (gen_code (byte_of op) c)

unfoldable pub gen_2 : Opcode → ℕ → ℕ → CodeGen → CodeGen
unfolding gen_code
gen_2 op arg1 arg2 c = gen_code arg2 (gen_code arg1 (gen_code (byte_of op) c))

-- `addLit` returns the new literal's index.
unfoldable pub add_lit : Literal → CodeGen → CodeGen × ℕ
add_lit oop c =
    (record c { literals = c.literals ++ oop ∷ [] }, length (c.literals ++ oop ∷ []) - 1)

unfoldable pub add_sym : Name → CodeGen → CodeGen × ℕ
unfolding add_lit
add_sym str c = add_lit (symbol str) c

unfoldable pub alloc_reg : CodeGen → CodeGen × RegisterId
alloc_reg c = (record c { reg = c.reg + 1 }, c.reg)
