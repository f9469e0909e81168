-- ===== src/CodeGen/Store.antt =====
-- Class `CodeGen` of cmd/vm/Generation.cc: the stores.
use valutron.Prelude.{ℕ, ◌+◌}
use valutron.Bytecode.{Opcode}
use valutron.CodeGen.Core.{Name, RegisterId, CodeGen, local_index, gen_1, add_sym}

-- `genStar ()` stores into a fresh register, `genStar (into)` into the given one.
unfoldable pub gen_star : CodeGen → CodeGen × RegisterId
unfolding gen_1
gen_star c = (gen_1 Opcode.star c.reg (record c { reg = c.reg + 1 }), c.reg)

unfoldable pub gen_star_into : RegisterId → CodeGen → CodeGen × RegisterId
unfolding gen_1
gen_star_into into c = (gen_1 Opcode.star into c, into)

unfoldable pub gen_store_instance_var : ℕ → CodeGen → CodeGen
unfolding gen_1
gen_store_instance_var index c = gen_1 Opcode.sta_nst_var index c

unfoldable pub gen_store_global : Name → CodeGen → CodeGen
unfolding gen_1 add_sym
gen_store_global name c = let (c', lit) = add_sym name c in gen_1 Opcode.sta_global lit c'

unfoldable pub gen_store_local : ℕ → CodeGen → CodeGen
unfolding gen_1 local_index
gen_store_local index c = gen_1 Opcode.star (local_index c index) c

unfoldable pub gen_store_parent_heap_var : ℕ → CodeGen → CodeGen
unfolding gen_1
gen_store_parent_heap_var index c = gen_1 Opcode.sta_parent_heap_var index c

unfoldable pub gen_store_my_heap_var : ℕ → CodeGen → CodeGen
unfolding gen_1
gen_store_my_heap_var index c = gen_1 Opcode.sta_my_heap_var index c
