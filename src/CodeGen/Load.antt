-- ===== src/CodeGen/Load.antt =====
-- Class `CodeGen` of cmd/vm/Generation.cc: the moves between heap variables and the loads.
use valutron.Prelude.{ℕ}
use valutron.Prelude.Int.{ℤ}
use valutron.Bytecode.{Opcode}
use valutron.CodeGen.Core.{
  Name, RegisterId, Literal, integer, object, CodeGen, local_index, gen_code, gen, gen_1, gen_2,
  add_lit, add_sym,
}

unfoldable pub gen_move_parent_heap_var_to_my_heap_vars : ℕ → ℕ → CodeGen → CodeGen
unfolding gen_1 gen_code
gen_move_parent_heap_var_to_my_heap_vars index promoted_index c =
    gen_code promoted_index (gen_1 Opcode.move_parent_heap_var_to_my_heap_vars index c)

unfoldable pub gen_move_argument_to_my_heap_vars : ℕ → ℕ → CodeGen → CodeGen
unfolding gen_1
gen_move_argument_to_my_heap_vars index promoted_index c =
    gen_1 Opcode.sta_my_heap_var promoted_index (gen_1 Opcode.ldar index c)

unfoldable pub gen_move_local_to_my_heap_vars : ℕ → ℕ → CodeGen → CodeGen
unfolding gen_1 local_index
gen_move_local_to_my_heap_vars index promoted_index c =
    gen_1 Opcode.sta_my_heap_var promoted_index (gen_1 Opcode.ldar (local_index c index) c)

unfoldable pub gen_move_my_heap_var_to_parent_heap_vars : ℕ → ℕ → CodeGen → CodeGen
unfolding gen_2
gen_move_my_heap_var_to_parent_heap_vars my_index parent_index c =
    gen_2 Opcode.move_my_heap_var_to_parent_heap_vars my_index parent_index c

unfoldable pub gen_ldar : RegisterId → CodeGen → CodeGen
unfolding gen_1
gen_ldar reg c = gen_1 Opcode.ldar reg c

unfoldable pub gen_load_argument : ℕ → CodeGen → CodeGen
unfolding gen_ldar
gen_load_argument index c = gen_ldar index c

unfoldable pub gen_load_global : Name → CodeGen → CodeGen
unfolding gen_1 add_sym
gen_load_global name c = let (c', lit) = add_sym name c in gen_1 Opcode.lda_global lit c'

unfoldable pub gen_load_instance_var : ℕ → CodeGen → CodeGen
unfolding gen_1
gen_load_instance_var index c = gen_1 Opcode.lda_nst_var index c

unfoldable pub gen_load_local : ℕ → CodeGen → CodeGen
unfolding gen_ldar local_index
gen_load_local index c = gen_ldar (local_index c index) c

unfoldable pub gen_load_parent_heap_var : ℕ → CodeGen → CodeGen
unfolding gen_1
gen_load_parent_heap_var index c = gen_1 Opcode.lda_parent_heap_var index c

unfoldable pub gen_load_my_heap_var : ℕ → CodeGen → CodeGen
unfolding gen_1
gen_load_my_heap_var index c = gen_1 Opcode.lda_my_heap_var index c

unfoldable pub gen_load_self : CodeGen → CodeGen
unfolding gen_1
gen_load_self c = gen_1 Opcode.ldar 0 c

unfoldable pub gen_load_nil : CodeGen → CodeGen
unfolding gen
gen_load_nil c = gen Opcode.lda_nil c

unfoldable pub gen_load_true : CodeGen → CodeGen
unfolding gen
gen_load_true c = gen Opcode.lda_true c

unfoldable pub gen_load_false : CodeGen → CodeGen
unfolding gen
gen_load_false c = gen Opcode.lda_false c

unfoldable pub gen_load_smalltalk : CodeGen → CodeGen
unfolding gen
gen_load_smalltalk c = gen Opcode.lda_smalltalk c

unfoldable pub gen_load_this_context : CodeGen → CodeGen
unfolding gen
gen_load_this_context c = gen Opcode.lda_this_context c

unfoldable pub gen_load_this_process : CodeGen → CodeGen
unfolding gen
gen_load_this_process c = gen Opcode.lda_this_process c

unfoldable pub gen_load_literal : ℕ → CodeGen → CodeGen
unfolding gen_1
gen_load_literal num c = gen_1 Opcode.lda_literal num c

unfoldable pub gen_load_literal_object : Literal → CodeGen → CodeGen
unfolding gen_1 add_lit
gen_load_literal_object an_obj c =
    let (c', lit) = add_lit an_obj c in gen_1 Opcode.lda_literal lit c'

-- The integer is one of an `int`, as the parser makes them; others are not cut here.
unfoldable pub gen_load_integer : ℤ → CodeGen → CodeGen
unfolding gen_1 add_lit
gen_load_integer val c = let (c', lit) = add_lit (integer val) c in gen_1 Opcode.lda_literal lit c'

-- A block is an object that the caller has made.
unfoldable pub gen_load_block_copy : ℕ → CodeGen → CodeGen
unfolding gen_1 add_lit
gen_load_block_copy block c =
    let (c', lit) = add_lit (object block) c in gen_1 Opcode.lda_block_copy lit c'
