-- ===== src/Bytecode/Instruction.antt =====
-- Instructions with their operands, as `execute` of cmd/vm/Interpreter.cc fetches them: the
-- description that the generator and the disassembler are compared with.
use valutron.Prelude.{ℕ, zero, suc, ◌≡◌, refl, List, [], ◌∷◌, ◌++◌, length}
use mathlib.Core.List.{append_assoc}
use valutron.Bytecode.{Opcode, byte_of}

-- A fixed number of operand bytes; or a byte, a count, and as many registers as the count says.
pub data Arity : Type 0 where
  fixed : ℕ → Arity
  counted : Arity

unfoldable pub arity : Opcode → Arity
arity Opcode.lda_nil = fixed 0
arity Opcode.lda_true = fixed 0
arity Opcode.lda_false = fixed 0
arity Opcode.lda_this_context = fixed 0
arity Opcode.lda_this_process = fixed 0
arity Opcode.lda_smalltalk = fixed 0
arity Opcode.return_self = fixed 0
arity Opcode.return = fixed 0
arity Opcode.block_return = fixed 0
arity Opcode.move_parent_heap_var_to_my_heap_vars = fixed 2
arity Opcode.move_my_heap_var_to_parent_heap_vars = fixed 2
arity Opcode.move = fixed 2
arity Opcode.jump = fixed 2
arity Opcode.branch_if_false = fixed 2
arity Opcode.branch_if_true = fixed 2
arity Opcode.bin_op = fixed 2
arity Opcode.primitive_2 = fixed 2
arity Opcode.primitive_3 = fixed 2
arity Opcode.primitive_v = fixed 3
arity Opcode.send = counted
arity Opcode.send_super = counted
arity Opcode.primitive = counted
arity _ = fixed 1

abbrev pub FitsFixed : ℕ → List ℕ → Type 0
FitsFixed zero [] = Unit
FitsFixed zero (x ∷ xs) = ⊥
FitsFixed (suc n) [] = ⊥
FitsFixed (suc n) (x ∷ xs) = FitsFixed n xs

abbrev pub FitsCounted : List ℕ → Type 0
FitsCounted (x ∷ n ∷ regs) = n ≡ length regs
FitsCounted _ = ⊥

abbrev pub Fits : Arity → List ℕ → Type 0
Fits (fixed n) args = FitsFixed n args
Fits counted args = FitsCounted args

pub record Instr : Type 0 where
  pub op : Opcode
  pub args : List ℕ

abbrev pub IsInstr : Instr → Type 0
IsInstr i = Fits (arity i.op) i.args

abbrev pub AllInstr : List Instr → Type 0
AllInstr [] = Unit
AllInstr (i ∷ is) = IsInstr i × AllInstr is

abbrev pub encode : Instr → List ℕ
encode i = byte_of i.op ∷ i.args

unfoldable pub encode_all : List Instr → List ℕ
encode_all [] = []
encode_all (i ∷ is) = encode i ++ encode_all is

pub encode_all-append :
    (is js : List Instr) → encode_all (is ++ js) ≡ encode_all is ++ encode_all js
unfolding encode_all
encode_all-append [] js = refl
encode_all-append (i ∷ is) js =
    rw (encode_all-append is js, append_assoc (encode i) (encode_all is) (encode_all js))

pub AllInstr-append : (is js : List Instr) → AllInstr is → AllInstr js → AllInstr (is ++ js)
AllInstr-append [] js h k = k
AllInstr-append (i ∷ is) js h k = (h.0, AllInstr-append is js h.1 k)
