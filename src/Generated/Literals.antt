-- ===== src/Generated/Literals.antt =====
-- Literal operands: genLoadLiteralObject of cmd/vm/Generation.cc, and the slot that its byte names.
use native.Mathlib.Nat.{mod-eq_of_lt}
use valutron.Prelude.{
  ℕ, ◌+◌, ◌%◌, ◌<◌, ◌≤◌, ◌≡◌, some, [], ◌∷◌, arith, length, get_elem?, get_elem?-append,
  get_elem?-append_length,
}
use valutron.Bytecode.{Opcode}
use valutron.CodeGen.{CodeGen, Literal, gen_load_literal_object}
use valutron.Generated.Calls.{Call, perform, meaning, instr}
use valutron.Generated.Emit.{Appends, perform-Appends}

-- If there are fewer than 256 literals, a load of an object appends a load of a slot that holds the
-- object, and an earlier slot keeps its literal.
pub gen_load_literal_object-slot :
    (oop : Literal) (c : CodeGen) (i : ℕ)
    → length c.literals < 256
    → i < length c.literals
    → (slot : ℕ) × Appends c
        (gen_load_literal_object oop c)
        (instr Opcode.lda_literal (slot ∷ []) ∷ [])
      × (get_elem? (gen_load_literal_object oop c).literals slot ≡ some oop)
      × (get_elem? (gen_load_literal_object oop c).literals i ≡ get_elem? c.literals i)
unfolding gen_load_literal_object perform meaning
gen_load_literal_object-slot oop c i h lt = (
  length c.literals,
  rw (mod-eq_of_lt h) at (perform-Appends (Call.load_literal_object oop) c),
  get_elem?-append_length c.literals [] oop,
  get_elem?-append c.literals (oop ∷ []) i lt,
)

-- If there are 256 to 511 literals, a load of an object appends a load of a slot whose number is 256
-- less than that of the new literal, and which holds what it held before.
pub gen_load_literal_object-wraps :
    (oop : Literal) (c : CodeGen)
    → 256 ≤ length c.literals
    → length c.literals < 512
    → (slot : ℕ) × Appends c
        (gen_load_literal_object oop c)
        (instr Opcode.lda_literal (slot ∷ []) ∷ [])
      × (slot + 256 ≡ length c.literals)
      × (get_elem? (gen_load_literal_object oop c).literals slot ≡ get_elem? c.literals slot)
unfolding gen_load_literal_object perform meaning
gen_load_literal_object-wraps oop c h k = (
  length c.literals % 256,
  perform-Appends (Call.load_literal_object oop) c,
  omega arith,
  get_elem?-append c.literals (oop ∷ []) (length c.literals % 256) (omega arith),
)
