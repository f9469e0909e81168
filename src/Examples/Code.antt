-- ===== src/Examples/Code.antt =====
-- The code of `self foo: 3` with a return, and a jump over it.
use valutron.Prelude.{ℕ, zero, suc, ◌≡◌, false, some, List, [], ◌∷◌, arith}
use valutron.Prelude.Int.{pos}
use valutron.Bytecode.{Opcode}
use valutron.Bytecode.Instruction.{Instr}
use valutron.Disassembler.{disassemble}
use valutron.Disassembler.Listing.{listing}
use valutron.CodeGen.{CodeGen, new_code_gen, Literal, integer}
use valutron.Generated.Calls.{Call, instr, meaning}
use valutron.Generated.Emit.{perform_all, meaning_all}
use valutron.Generated.Printed.{disassemble-perform_all}

abbrev calls : List Call
calls =
    Call.load_integer (pos 3)
    ∷ Call.star
    ∷ Call.load_self
    ∷ Call.message false (102 ∷ []) (1 ∷ [])
    ∷ Call.jump
    ∷ Call.return
    ∷ []

abbrev generator : CodeGen
generator = new_code_gen 1 2 false

disassemble-perform_all_example :
    disassemble (perform_all calls generator).bytecode
    ≡ some (listing 0 (meaning_all calls generator))
unfolding meaning_all meaning
disassemble-perform_all_example =
    disassemble-perform_all calls 1 2 false (tt, (tt, (tt, (omega arith, (tt, (tt, tt))))))
      (
        λ e. absurd (cc e),
        (
          λ e. absurd (cc e),
          (
            λ e. absurd (cc e),
            (λ e. absurd (cc e), (λ e. absurd (cc e), (λ e. absurd (cc e), tt))),
          ),
        ),
      )

abbrev sent : List Instr
sent = instr Opcode.send (0 ∷ 2 ∷ 5 ∷ 6 ∷ []) ∷ instr Opcode.return [] ∷ []

-- A generator with a jump at the start of its code, and one with 300 literals.
abbrev jumping : CodeGen
jumping = record {
  bytecode = 21 ∷ 0 ∷ 0 ∷ 8 ∷ 8 ∷ 8 ∷ [];
  literals = integer (pos 1) ∷ [];
  is_block = false;
  reg = 1;
  n_args = 1;
  n_locals = 0;
}

abbrev repeat : ℕ → List Literal
repeat zero = []
repeat (suc n) = integer (pos n) ∷ repeat n

abbrev crowded : CodeGen
crowded = record jumping { literals = repeat 300 }
