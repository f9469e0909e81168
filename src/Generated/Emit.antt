-- ===== src/Generated/Emit.antt =====
-- The bytes that the calls of the generator (cmd/vm/Generation.cc) append, against the instructions they
-- stand for.
use mathlib.Core.List.{append_assoc, map, append-nil}
use native.Mathlib.Nat.{mod-eq_of_lt}
use valutron.Prelude.{
  ℕ, ◌+◌, ◌-◌, ◌<◌, ◌≡◌, refl, ◌∙◌, Bool, true, false, List, [], ◌∷◌, ◌++◌, length, length-append,
  length-map, arith, if◌then◌else◌,
}
use valutron.Bytecode.{Opcode, byte_of}
use valutron.Bytecode.Instruction.{
  Instr, AllInstr, arity, encode_all, encode_all-append, AllInstr-append, FitsCounted,
}
use valutron.CodeGen.{
  CodeGen, Name, Literal, symbol, cache, integer, object, u8, add_lit, gen, gen_1, gen_2, gen_args,
  gen_message, gen_primitive_v,
}
use valutron.Generated.Calls.{Call, perform, meaning, instr}

byte_of-u8 : (op : Opcode) → u8 (byte_of op) ≡ byte_of op
unfolding byte_of
byte_of-u8 Opcode.lda_nil = refl
byte_of-u8 _ = refl

-- `d` is `c` with the instructions `is` behind its code.
abbrev pub Appends : CodeGen → CodeGen → List Instr → Type 0
Appends c d is = d.bytecode ≡ c.bytecode ++ encode_all is

gen-append : (op : Opcode) (c : CodeGen) → Appends c (gen op c) (instr op [] ∷ [])
unfolding gen encode_all
gen-append op c = simp (byte_of-u8, append_assoc, append-nil)

gen_1-append :
    (op : Opcode) (n : ℕ) (c : CodeGen) → Appends c (gen_1 op n c) (instr op (u8 n ∷ []) ∷ [])
unfolding gen_1 encode_all
gen_1-append op n c = simp (byte_of-u8, append_assoc, append-nil)

gen_2-append :
    (op : Opcode) (n m : ℕ) (c : CodeGen)
    → Appends c (gen_2 op n m c) (instr op (u8 n ∷ u8 m ∷ []) ∷ [])
unfolding gen_2 encode_all
gen_2-append op n m c = simp (byte_of-u8, append_assoc, append-nil)

gen_3-append :
    (n m k : ℕ) (c : CodeGen)
    → Appends c (gen_primitive_v n m k c) (instr Opcode.primitive_v (u8 n ∷ u8 m ∷ u8 k ∷ []) ∷ [])
unfolding gen_primitive_v encode_all
gen_3-append n m k c = simp (byte_of-u8, append_assoc, append-nil)

gen_1-gen_1-append :
    (n m : ℕ) (c : CodeGen)
    → Appends c
        (gen_1 Opcode.sta_my_heap_var m (gen_1 Opcode.ldar n c))
        (instr Opcode.ldar (u8 n ∷ []) ∷ instr Opcode.sta_my_heap_var (u8 m ∷ []) ∷ [])
unfolding gen_1 encode_all
gen_1-gen_1-append n m c = simp (byte_of-u8, append_assoc, append-nil)

last_index : (c : CodeGen) (l : Literal) → length (c.literals ++ l ∷ []) - 1 ≡ length c.literals
last_index c l = omega (arith, length-append c.literals (l ∷ []))

literal-append :
    (op : Opcode) (l : Literal) (c : CodeGen)
    → Appends c
        (gen_1 op (add_lit l c).1 (add_lit l c).0)
        (instr op (u8 (length c.literals) ∷ []) ∷ [])
unfolding add_lit
literal-append op l c =
    rw (last_index c l)
      (gen_1-append op (length c.literals) (record c { literals = c.literals ++ l ∷ [] }))

gen_args-append :
    (args : List ℕ) (c : CodeGen) → (gen_args args c).bytecode ≡ c.bytecode ++ map u8 args
unfolding gen_args
gen_args-append [] c = simp append-nil
gen_args-append (arg ∷ args) c =
    simp (gen_args-append args (record c { bytecode = c.bytecode ++ u8 arg ∷ [] }), append_assoc)

counted-append :
    (op : Opcode) (n : ℕ) (args : List ℕ) (c : CodeGen)
    → Appends c
        (gen_args args (gen_2 op n (length args) c))
        (instr op (u8 n ∷ u8 (length args) ∷ map u8 args) ∷ [])
unfolding gen_2 encode_all
counted-append op n args c =
    gen_args-append args (gen_2 op n (length args) c) ∙ simp (byte_of-u8, append_assoc, append-nil)

message-append :
    (is_super : Bool) (selector : Name) (args : List ℕ) (c : CodeGen)
    → Appends c
        (gen_message is_super selector args c)
        (meaning (Call.message is_super selector args) c)
unfolding gen_message meaning
message-append is_super selector args c = rw (last_index c (cache selector)) (
    counted-append (if is_super then Opcode.send_super else Opcode.send) (length c.literals) args
      (record c { literals = c.literals ++ cache selector ∷ [] }))

-- Each call appends its instructions to the code, and leaves the code before them as it was.
pub perform-Appends : (call : Call) (c : CodeGen) → Appends c (perform call c) (meaning call c)
unfolding perform meaning
perform-Appends (Call.move_parent_heap_var_to_my_heap_vars n m) c =
    gen_2-append Opcode.move_parent_heap_var_to_my_heap_vars n m c
perform-Appends (Call.move_argument_to_my_heap_vars n m) c = gen_1-gen_1-append n m c
perform-Appends (Call.move_local_to_my_heap_vars n m) c = gen_1-gen_1-append (c.n_args + n) m c
perform-Appends (Call.move_my_heap_var_to_parent_heap_vars n m) c =
    gen_2-append Opcode.move_my_heap_var_to_parent_heap_vars n m c
perform-Appends (Call.ldar n) c = gen_1-append Opcode.ldar n c
perform-Appends (Call.load_argument n) c = gen_1-append Opcode.ldar n c
perform-Appends (Call.load_global name) c = literal-append Opcode.lda_global (symbol name) c
perform-Appends (Call.load_instance_var n) c = gen_1-append Opcode.lda_nst_var n c
perform-Appends (Call.load_local n) c = gen_1-append Opcode.ldar (c.n_args + n) c
perform-Appends (Call.load_parent_heap_var n) c = gen_1-append Opcode.lda_parent_heap_var n c
perform-Appends (Call.load_my_heap_var n) c = gen_1-append Opcode.lda_my_heap_var n c
perform-Appends Call.load_self c = gen_1-append Opcode.ldar 0 c
perform-Appends Call.load_nil c = gen-append Opcode.lda_nil c
perform-Appends Call.load_true c = gen-append Opcode.lda_true c
perform-Appends Call.load_false c = gen-append Opcode.lda_false c
perform-Appends Call.load_smalltalk c = gen-append Opcode.lda_smalltalk c
perform-Appends Call.load_this_context c = gen-append Opcode.lda_this_context c
perform-Appends Call.load_this_process c = gen-append Opcode.lda_this_process c
perform-Appends (Call.load_literal n) c = gen_1-append Opcode.lda_literal n c
perform-Appends (Call.load_literal_object oop) c = literal-append Opcode.lda_literal (oop) c
perform-Appends (Call.load_integer val) c = literal-append Opcode.lda_literal (integer val) c
perform-Appends (Call.load_block_copy block) c =
    literal-append Opcode.lda_block_copy (object block) c
perform-Appends Call.star c = gen_1-append Opcode.star c.reg (record c { reg = c.reg + 1 })
perform-Appends (Call.star_into n) c = gen_1-append Opcode.star n c
perform-Appends (Call.store_instance_var n) c = gen_1-append Opcode.sta_nst_var n c
perform-Appends (Call.store_global name) c = literal-append Opcode.sta_global (symbol name) c
perform-Appends (Call.store_local n) c = gen_1-append Opcode.star (c.n_args + n) c
perform-Appends (Call.store_parent_heap_var n) c = gen_1-append Opcode.sta_parent_heap_var n c
perform-Appends (Call.store_my_heap_var n) c = gen_1-append Opcode.sta_my_heap_var n c
perform-Appends Call.jump c = gen_2-append Opcode.jump 0 0 c
perform-Appends Call.branch_if_false c = gen_2-append Opcode.branch_if_false 0 0 c
perform-Appends Call.branch_if_true c = gen_2-append Opcode.branch_if_true 0 0 c
perform-Appends (Call.bin_op n m) c = gen_2-append Opcode.bin_op n m c
perform-Appends (Call.message is_super selector args) c = message-append is_super selector args c
perform-Appends (Call.primitive prim args) c = counted-append Opcode.primitive prim args c
perform-Appends (Call.primitive_0 n) c = gen_1-append Opcode.primitive_0 n c
perform-Appends (Call.primitive_1 n) c = gen_1-append Opcode.primitive_1 n c
perform-Appends (Call.primitive_2 n m) c = gen_2-append Opcode.primitive_2 n m c
perform-Appends (Call.primitive_3 n m) c = gen_2-append Opcode.primitive_3 n m c
perform-Appends (Call.primitive_v n m k) c = gen_3-append n m k c
perform-Appends Call.return c = gen-append Opcode.return c
perform-Appends Call.return_self c = gen-append Opcode.return_self c
perform-Appends Call.block_return c = gen-append Opcode.block_return c

-- The registers of a send or of a primitive fit the byte that counts them.
abbrev pub IsCountable : Call → Type 0
IsCountable (Call.message is_super selector args) = length args < 256
IsCountable (Call.primitive prim args) = length args < 256
IsCountable _ = Unit

counted-IsInstr :
    (op : Opcode) (n : ℕ) (args : List ℕ)
    → length args < 256
    → FitsCounted (n ∷ u8 (length args) ∷ map u8 args)
counted-IsInstr op n args h = rw (length-map args u8) (mod-eq_of_lt h)

pub meaning-AllInstr : (call : Call) (c : CodeGen) → IsCountable call → AllInstr (meaning call c)
unfolding meaning arity
meaning-AllInstr (Call.message true selector args) c h =
    (counted-IsInstr Opcode.send_super (u8 (length c.literals)) args h, tt)
meaning-AllInstr (Call.message false selector args) c h =
    (counted-IsInstr Opcode.send (u8 (length c.literals)) args h, tt)
meaning-AllInstr (Call.primitive prim args) c h =
    (counted-IsInstr Opcode.primitive (u8 prim) args h, tt)
meaning-AllInstr _ c h = ground arith

-- A sequence of calls, each on the generator that the one before it left.
unfoldable pub perform_all : List Call → CodeGen → CodeGen
perform_all [] c = c
perform_all (call ∷ calls) c = perform_all calls (perform call c)

unfoldable pub meaning_all : List Call → CodeGen → List Instr
meaning_all [] c = []
meaning_all (call ∷ calls) c = meaning call c ++ meaning_all calls (perform call c)

abbrev pub AllCountable : List Call → Type 0
AllCountable [] = Unit
AllCountable (call ∷ calls) = IsCountable call × AllCountable calls

pub perform_all-Appends :
    (calls : List Call) (c : CodeGen) → Appends c (perform_all calls c) (meaning_all calls c)
unfolding perform_all meaning_all encode_all
perform_all-Appends [] c = simp append-nil
perform_all-Appends (call ∷ calls) c = simp (
  perform_all-Appends calls (perform call c),
  perform-Appends call c,
  encode_all-append (meaning call c) (meaning_all calls (perform call c)),
  append_assoc,
)

pub meaning_all-AllInstr :
    (calls : List Call) (c : CodeGen) → AllCountable calls → AllInstr (meaning_all calls c)
unfolding meaning_all
meaning_all-AllInstr [] c h = tt
meaning_all-AllInstr (call ∷ calls) c h =
    AllInstr-append (meaning call c) (meaning_all calls (perform call c))
      (meaning-AllInstr call c h.0) (meaning_all-AllInstr calls (perform call c) h.1)
