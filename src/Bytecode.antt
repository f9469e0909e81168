-- ===== src/Bytecode.antt =====
-- The instruction set of cmd/vm/Interpreter.hh (`OPS`), and the byte that stands for each instruction.
pub mod Instruction
use valutron.Prelude.{
  ℕ, ◌+◌, ◌*◌, ◌-◌, ◌^◌, ◌≡◌, refl, Option, some, List, [], ◌∷◌, get_elem?, ltb, if◌then◌else◌,
}
use valutron.Prelude.Int.{ℤ, pos, negsuc}

pub data Opcode : Type 0 where
  move_parent_heap_var_to_my_heap_vars move_my_heap_var_to_parent_heap_vars lda_nil lda_true :
      Opcode
  lda_false lda_this_context lda_this_process lda_smalltalk : Opcode
  lda_parent_heap_var lda_my_heap_var lda_global lda_nst_var : Opcode
  lda_literal lda_block_copy ldar sta_nst_var : Opcode
  sta_global sta_parent_heap_var sta_my_heap_var star : Opcode
  move and jump branch_if_false : Opcode
  branch_if_true bin_op send send_super : Opcode
  primitive primitive_0 primitive_1 primitive_2 : Opcode
  primitive_3 primitive_v return_self return : Opcode
  block_return : Opcode

-- `enum Opcode` numbers the instructions in the order of `OPS`.
abbrev pub opcodes : List Opcode
opcodes =
    move_parent_heap_var_to_my_heap_vars ∷ move_my_heap_var_to_parent_heap_vars ∷ lda_nil ∷ lda_true
    ∷ lda_false ∷ lda_this_context ∷ lda_this_process ∷ lda_smalltalk ∷ lda_parent_heap_var
    ∷ lda_my_heap_var ∷ lda_global ∷ lda_nst_var ∷ lda_literal ∷ lda_block_copy ∷ ldar ∷ sta_nst_var
    ∷ sta_global ∷ sta_parent_heap_var ∷ sta_my_heap_var ∷ star ∷ move ∷ and ∷ jump
    ∷ branch_if_false ∷ branch_if_true ∷ bin_op ∷ send ∷ send_super ∷ primitive ∷ primitive_0
    ∷ primitive_1 ∷ primitive_2 ∷ primitive_3 ∷ primitive_v ∷ return_self ∷ return ∷ block_return
    ∷ []

unfoldable pub byte_of : Opcode → ℕ
byte_of move_parent_heap_var_to_my_heap_vars = 0
byte_of move_my_heap_var_to_parent_heap_vars = 1
byte_of lda_nil = 2
byte_of lda_true = 3
byte_of lda_false = 4
byte_of lda_this_context = 5
byte_of lda_this_process = 6
byte_of lda_smalltalk = 7
byte_of lda_parent_heap_var = 8
byte_of lda_my_heap_var = 9
byte_of lda_global = 10
byte_of lda_nst_var = 11
byte_of lda_literal = 12
byte_of lda_block_copy = 13
byte_of ldar = 14
byte_of sta_nst_var = 15
byte_of sta_global = 16
byte_of sta_parent_heap_var = 17
byte_of sta_my_heap_var = 18
byte_of star = 19
byte_of move = 20
byte_of and = 21
byte_of jump = 22
byte_of branch_if_false = 23
byte_of branch_if_true = 24
byte_of bin_op = 25
byte_of send = 26
byte_of send_super = 27
byte_of primitive = 28
byte_of primitive_0 = 29
byte_of primitive_1 = 30
byte_of primitive_2 = 31
byte_of primitive_3 = 32
byte_of primitive_v = 33
byte_of return_self = 34
byte_of return = 35
byte_of block_return = 36

-- The instruction that a fetched byte selects; from `kMax` on there is none.
unfoldable pub opcode_at : ℕ → Option Opcode
opcode_at b = get_elem? opcodes b

pub opcode_at-byte_of : (op : Opcode) → opcode_at (byte_of op) ≡ some op
unfolding byte_of opcode_at
opcode_at-byte_of move_parent_heap_var_to_my_heap_vars = refl
opcode_at-byte_of _ = refl

-- A jump's operand: `(int16_t) ((b1 << 8) | b2)`. The bytes do not overlap, so the disjunction is a sum.
unfoldable pub int16 : ℕ → ℕ → ℤ
int16 b1 b2 = let v = b1 * 256 + b2 in if ltb v (2 ^ 15) then pos v else negsuc (2 ^ 16 - 1 - v)
