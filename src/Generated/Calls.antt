-- ===== src/Generated/Calls.antt =====
-- The calls of the generator of cmd/vm/Generation.cc as data, and the instructions that each call stands for.
use mathlib.Core.List.{map}
use valutron.Prelude.{ℕ, ◌+◌, Bool, List, [], ◌∷◌, length, if◌then◌else◌}
use valutron.Prelude.Int.{ℤ}
use valutron.Bytecode.{Opcode}
use valutron.Bytecode.Instruction.{Instr}
use valutron.CodeGen.{
  CodeGen, Name, Literal, u8, gen_1, gen_2, gen_move_parent_heap_var_to_my_heap_vars,
  gen_move_argument_to_my_heap_vars, gen_move_local_to_my_heap_vars,
  gen_move_my_heap_var_to_parent_heap_vars, gen_ldar, gen_load_argument, gen_load_global,
  gen_load_instance_var, gen_load_local, gen_load_parent_heap_var, gen_load_my_heap_var,
  gen_load_self, gen_load_nil, gen_load_true, gen_load_false, gen_load_smalltalk,
  gen_load_this_context, gen_load_this_process, gen_load_literal, gen_load_literal_object,
  gen_load_integer, gen_load_block_copy, gen_star, gen_star_into, gen_store_instance_var,
  gen_store_global, gen_store_local, gen_store_parent_heap_var, gen_store_my_heap_var, gen_jump,
  gen_branch_if_false, gen_branch_if_true, gen_bin_op, gen_message, gen_primitive, gen_primitive_0,
  gen_primitive_1, gen_primitive_2, gen_primitive_3, gen_primitive_v, gen_return, gen_return_self,
  gen_block_return,
}

-- The calls of the generator's methods, but for the patching of jumps and the allocation of a register.
pub data Call : Type 0 where
  move_parent_heap_var_to_my_heap_vars : ℕ → ℕ → Call
  move_argument_to_my_heap_vars : ℕ → ℕ → Call
  move_local_to_my_heap_vars : ℕ → ℕ → Call
  move_my_heap_var_to_parent_heap_vars : ℕ → ℕ → Call
  ldar : ℕ → Call
  load_argument : ℕ → Call
  load_global : Name → Call
  load_instance_var : ℕ → Call
  load_local : ℕ → Call
  load_parent_heap_var : ℕ → Call
  load_my_heap_var : ℕ → Call
  load_self : Call
  load_nil : Call
  load_true : Call
  load_false : Call
  load_smalltalk : Call
  load_this_context : Call
  load_this_process : Call
  load_literal : ℕ → Call
  load_literal_object : Literal → Call
  load_integer : ℤ → Call
  load_block_copy : ℕ → Call
  star : Call
  star_into : ℕ → Call
  store_instance_var : ℕ → Call
  store_global : Name → Call
  store_local : ℕ → Call
  store_parent_heap_var : ℕ → Call
  store_my_heap_var : ℕ → Call
  jump : Call
  branch_if_false : Call
  branch_if_true : Call
  bin_op : ℕ → ℕ → Call
  message : Bool → Name → List ℕ → Call
  primitive : ℕ → List ℕ → Call
  primitive_0 : ℕ → Call
  primitive_1 : ℕ → Call
  primitive_2 : ℕ → ℕ → Call
  primitive_3 : ℕ → ℕ → Call
  primitive_v : ℕ → ℕ → ℕ → Call
  return : Call
  return_self : Call
  block_return : Call

abbrev pub fst : (CodeGen → CodeGen × ℕ) → CodeGen → CodeGen
fst f c = (f c).0

unfoldable pub perform : Call → CodeGen → CodeGen
unfolding gen_1 gen_2 gen_move_parent_heap_var_to_my_heap_vars gen_move_argument_to_my_heap_vars
    gen_move_local_to_my_heap_vars gen_move_my_heap_var_to_parent_heap_vars gen_ldar
    gen_load_argument gen_load_global gen_load_instance_var gen_load_local gen_load_parent_heap_var
    gen_load_my_heap_var gen_load_self gen_load_nil gen_load_true gen_load_false gen_load_smalltalk
    gen_load_this_context gen_load_this_process gen_load_literal gen_load_literal_object
    gen_load_integer gen_load_block_copy gen_star gen_star_into gen_store_instance_var
    gen_store_global gen_store_local gen_store_parent_heap_var gen_store_my_heap_var gen_jump
    gen_branch_if_false gen_branch_if_true gen_bin_op gen_message gen_primitive gen_primitive_0
    gen_primitive_1 gen_primitive_2 gen_primitive_3 gen_primitive_v gen_return gen_return_self
    gen_block_return
perform (Call.move_parent_heap_var_to_my_heap_vars n m) c =
    gen_move_parent_heap_var_to_my_heap_vars n m c
perform (Call.move_argument_to_my_heap_vars n m) c = gen_move_argument_to_my_heap_vars n m c
perform (Call.move_local_to_my_heap_vars n m) c = gen_move_local_to_my_heap_vars n m c
perform (Call.move_my_heap_var_to_parent_heap_vars n m) c =
    gen_move_my_heap_var_to_parent_heap_vars n m c
perform (Call.ldar n) c = gen_ldar n c
perform (Call.load_argument n) c = gen_load_argument n c
perform (Call.load_global name) c = gen_load_global name c
perform (Call.load_instance_var n) c = gen_load_instance_var n c
perform (Call.load_local n) c = gen_load_local n c
perform (Call.load_parent_heap_var n) c = gen_load_parent_heap_var n c
perform (Call.load_my_heap_var n) c = gen_load_my_heap_var n c
perform Call.load_self c = gen_load_self c
perform Call.load_nil c = gen_load_nil c
perform Call.load_true c = gen_load_true c
perform Call.load_false c = gen_load_false c
perform Call.load_smalltalk c = gen_load_smalltalk c
perform Call.load_this_context c = gen_load_this_context c
perform Call.load_this_process c = gen_load_this_process c
perform (Call.load_literal n) c = gen_load_literal n c
perform (Call.load_literal_object oop) c = gen_load_literal_object oop c
perform (Call.load_integer val) c = gen_load_integer val c
perform (Call.load_block_copy block) c = gen_load_block_copy block c
perform Call.star c = fst gen_star c
perform (Call.star_into n) c = fst (gen_star_into n) c
perform (Call.store_instance_var n) c = gen_store_instance_var n c
perform (Call.store_global name) c = gen_store_global name c
perform (Call.store_local n) c = gen_store_local n c
perform (Call.store_parent_heap_var n) c = gen_store_parent_heap_var n c
perform (Call.store_my_heap_var n) c = gen_store_my_heap_var n c
perform Call.jump c = fst gen_jump c
perform Call.branch_if_false c = fst gen_branch_if_false c
perform Call.branch_if_true c = fst gen_branch_if_true c
perform (Call.bin_op n m) c = gen_bin_op n m c
perform (Call.message is_super selector args) c = gen_message is_super selector args c
perform (Call.primitive prim args) c = gen_primitive prim args c
perform (Call.primitive_0 n) c = gen_primitive_0 n c
perform (Call.primitive_1 n) c = gen_primitive_1 n c
perform (Call.primitive_2 n m) c = gen_primitive_2 n m c
perform (Call.primitive_3 n m) c = gen_primitive_3 n m c
perform (Call.primitive_v n m k) c = gen_primitive_v n m k c
perform Call.return c = gen_return c
perform Call.return_self c = gen_return_self c
perform Call.block_return c = gen_block_return c

-- The instructions that a call stands for, in a generator with these literals and registers.
abbrev pub instr : Opcode → List ℕ → Instr
instr op args = record { op = op; args = args }

unfoldable pub meaning : Call → CodeGen → List Instr
meaning (Call.move_parent_heap_var_to_my_heap_vars n m) c =
    instr Opcode.move_parent_heap_var_to_my_heap_vars (u8 n ∷ u8 m ∷ []) ∷ []
meaning (Call.move_argument_to_my_heap_vars n m) c =
    instr Opcode.ldar (u8 n ∷ []) ∷ instr Opcode.sta_my_heap_var (u8 m ∷ []) ∷ []
meaning (Call.move_local_to_my_heap_vars n m) c =
    instr Opcode.ldar (u8 (c.n_args + n) ∷ []) ∷ instr Opcode.sta_my_heap_var (u8 m ∷ []) ∷ []
meaning (Call.move_my_heap_var_to_parent_heap_vars n m) c =
    instr Opcode.move_my_heap_var_to_parent_heap_vars (u8 n ∷ u8 m ∷ []) ∷ []
meaning (Call.ldar n) c = instr Opcode.ldar (u8 n ∷ []) ∷ []
meaning (Call.load_argument n) c = instr Opcode.ldar (u8 n ∷ []) ∷ []
meaning (Call.load_global name) c = instr Opcode.lda_global (u8 (length c.literals) ∷ []) ∷ []
meaning (Call.load_instance_var n) c = instr Opcode.lda_nst_var (u8 n ∷ []) ∷ []
meaning (Call.load_local n) c = instr Opcode.ldar (u8 (c.n_args + n) ∷ []) ∷ []
meaning (Call.load_parent_heap_var n) c = instr Opcode.lda_parent_heap_var (u8 n ∷ []) ∷ []
meaning (Call.load_my_heap_var n) c = instr Opcode.lda_my_heap_var (u8 n ∷ []) ∷ []
meaning Call.load_self c = instr Opcode.ldar (0 ∷ []) ∷ []
meaning Call.load_nil c = instr Opcode.lda_nil ([]) ∷ []
meaning Call.load_true c = instr Opcode.lda_true ([]) ∷ []
meaning Call.load_false c = instr Opcode.lda_false ([]) ∷ []
meaning Call.load_smalltalk c = instr Opcode.lda_smalltalk ([]) ∷ []
meaning Call.load_this_context c = instr Opcode.lda_this_context ([]) ∷ []
meaning Call.load_this_process c = instr Opcode.lda_this_process ([]) ∷ []
meaning (Call.load_literal n) c = instr Opcode.lda_literal (u8 n ∷ []) ∷ []
meaning (Call.load_literal_object oop) c =
    instr Opcode.lda_literal (u8 (length c.literals) ∷ []) ∷ []
meaning (Call.load_integer val) c = instr Opcode.lda_literal (u8 (length c.literals) ∷ []) ∷ []
meaning (Call.load_block_copy block) c =
    instr Opcode.lda_block_copy (u8 (length c.literals) ∷ []) ∷ []
meaning Call.star c = instr Opcode.star (u8 c.reg ∷ []) ∷ []
meaning (Call.star_into n) c = instr Opcode.star (u8 n ∷ []) ∷ []
meaning (Call.store_instance_var n) c = instr Opcode.sta_nst_var (u8 n ∷ []) ∷ []
meaning (Call.store_global name) c = instr Opcode.sta_global (u8 (length c.literals) ∷ []) ∷ []
meaning (Call.store_local n) c = instr Opcode.star (u8 (c.n_args + n) ∷ []) ∷ []
meaning (Call.store_parent_heap_var n) c = instr Opcode.sta_parent_heap_var (u8 n ∷ []) ∷ []
meaning (Call.store_my_heap_var n) c = instr Opcode.sta_my_heap_var (u8 n ∷ []) ∷ []
meaning Call.jump c = instr Opcode.jump (0 ∷ 0 ∷ []) ∷ []
meaning Call.branch_if_false c = instr Opcode.branch_if_false (0 ∷ 0 ∷ []) ∷ []
meaning Call.branch_if_true c = instr Opcode.branch_if_true (0 ∷ 0 ∷ []) ∷ []
meaning (Call.bin_op n m) c = instr Opcode.bin_op (u8 n ∷ u8 m ∷ []) ∷ []
meaning (Call.message is_super selector args) c =
    instr (if is_super then Opcode.send_super else Opcode.send)
      (u8 (length c.literals) ∷ u8 (length args) ∷ map u8 args)
    ∷ []
meaning (Call.primitive prim args) c =
    instr Opcode.primitive (u8 prim ∷ u8 (length args) ∷ map u8 args) ∷ []
meaning (Call.primitive_0 n) c = instr Opcode.primitive_0 (u8 n ∷ []) ∷ []
meaning (Call.primitive_1 n) c = instr Opcode.primitive_1 (u8 n ∷ []) ∷ []
meaning (Call.primitive_2 n m) c = instr Opcode.primitive_2 (u8 n ∷ u8 m ∷ []) ∷ []
meaning (Call.primitive_3 n m) c = instr Opcode.primitive_3 (u8 n ∷ u8 m ∷ []) ∷ []
meaning (Call.primitive_v n m k) c = instr Opcode.primitive_v (u8 n ∷ u8 m ∷ u8 k ∷ []) ∷ []
meaning Call.return c = instr Opcode.return ([]) ∷ []
meaning Call.return_self c = instr Opcode.return_self ([]) ∷ []
meaning Call.block_return c = instr Opcode.block_return ([]) ∷ []
