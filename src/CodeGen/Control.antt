-- ===== src/CodeGen/Control.antt =====
-- Class `CodeGen` of cmd/vm/Generation.cc: jumps and their patching, sends, primitives and returns.
use valutron.Prelude.{ℕ, ◌+◌, ◌-◌, ◌/◌, ◌%◌, ◌^◌, Bool, List, [], ◌∷◌, length, set, if◌then◌else◌}
use valutron.Bytecode.{Opcode}
use valutron.CodeGen.Core.{Name, RegisterId, cache, CodeGen, gen_code, gen, gen_1, gen_2, add_lit}

-- A forward jump is emitted with offset 0; the result is the address behind it.
unfoldable pub gen_jump : CodeGen → CodeGen × ℕ
unfolding gen_2
gen_jump c = let c' = gen_2 Opcode.jump 0 0 c in (c', length c'.bytecode)

unfoldable pub gen_branch_if_false : CodeGen → CodeGen × ℕ
unfolding gen_2
gen_branch_if_false c = let c' = gen_2 Opcode.branch_if_false 0 0 c in (c', length c'.bytecode)

unfoldable pub gen_branch_if_true : CodeGen → CodeGen × ℕ
unfolding gen_2
gen_branch_if_true c = let c' = gen_2 Opcode.branch_if_true 0 0 c in (c', length c'.bytecode)

-- `i16tou8` of the difference of two sizes, which is narrowed to 16 bits on the way.
unfoldable pub relative : ℕ → ℕ → ℕ
relative target from = (target % 2 ^ 16 + 2 ^ 16 - from % 2 ^ 16) % 2 ^ 16

unfoldable pub patch_jump_to : ℕ → ℕ → CodeGen → CodeGen
unfolding relative
patch_jump_to jump_instr_loc loc c =
    let r = relative loc jump_instr_loc in
    record c {
      bytecode = set (set c.bytecode (jump_instr_loc - 1) (r % 256)) (jump_instr_loc - 2) (r / 256);
    }

unfoldable pub patch_jump_to_here : ℕ → CodeGen → CodeGen
unfolding relative
patch_jump_to_here jump_instr_loc c =
    let r = relative (length c.bytecode) jump_instr_loc in
    record c {
      bytecode = set (set c.bytecode (jump_instr_loc - 1) (r % 256)) (jump_instr_loc - 2) (r / 256);
    }

unfoldable pub gen_bin_op : ℕ → ℕ → CodeGen → CodeGen
unfolding gen_2
gen_bin_op arg op c = gen_2 Opcode.bin_op arg op c

-- The loop `for (auto arg : args) genCode (arg)`.
unfoldable pub gen_args : List RegisterId → CodeGen → CodeGen
unfolding gen_code
gen_args [] c = c
gen_args (arg ∷ args) c = gen_args args (gen_code arg c)

unfoldable pub gen_message : Bool → Name → List RegisterId → CodeGen → CodeGen
unfolding gen_args gen_2 add_lit
gen_message is_super selector args c =
    let (c', lit) = add_lit (cache selector) c in
    let op = if is_super then Opcode.send_super else Opcode.send in
    gen_args args (gen_2 op lit (length args) c')

unfoldable pub gen_primitive : ℕ → List RegisterId → CodeGen → CodeGen
unfolding gen_args gen_2
gen_primitive prim_num args c = gen_args args (gen_2 Opcode.primitive prim_num (length args) c)

unfoldable pub gen_primitive_0 : ℕ → CodeGen → CodeGen
unfolding gen_1
gen_primitive_0 prim_num c = gen_1 Opcode.primitive_0 prim_num c

unfoldable pub gen_primitive_1 : ℕ → CodeGen → CodeGen
unfolding gen_1
gen_primitive_1 prim_num c = gen_1 Opcode.primitive_1 prim_num c

unfoldable pub gen_primitive_2 : ℕ → RegisterId → CodeGen → CodeGen
unfolding gen_2
gen_primitive_2 prim_num arg1reg c = gen_2 Opcode.primitive_2 prim_num arg1reg c

unfoldable pub gen_primitive_3 : ℕ → RegisterId → CodeGen → CodeGen
unfolding gen_2
gen_primitive_3 prim_num arg1reg c = gen_2 Opcode.primitive_3 prim_num arg1reg c

unfoldable pub gen_primitive_v : ℕ → ℕ → RegisterId → CodeGen → CodeGen
unfolding gen_2 gen_code
gen_primitive_v prim_num n_args arg1reg c =
    gen_code arg1reg (gen_2 Opcode.primitive_v prim_num n_args c)

unfoldable pub gen_return : CodeGen → CodeGen
unfolding gen
gen_return c = gen Opcode.return c

unfoldable pub gen_return_self : CodeGen → CodeGen
unfolding gen
gen_return_self c = gen Opcode.return_self c

unfoldable pub gen_block_return : CodeGen → CodeGen
unfolding gen
gen_block_return c = gen Opcode.block_return c
