-- ===== src/Examples/Inlined.antt =====
-- Concrete instances of the theorems on messages that are compiled inline.
use valutron.Prelude.{◌≡◌, refl, true, false, List, [], ◌∷◌, arith}
use valutron.Outcome.{done}
use valutron.Bytecode.{Opcode, byte_of}
use valutron.Bytecode.Instruction.{Instr, encode_all}
use valutron.CodeGen.{
  CodeGen, new_code_gen, gen_load_true, gen_load_nil, gen_load_false, gen_jump, patch_jump_to_here,
}
use valutron.Generated.Calls.{instr}
use valutron.Compile.State.{State, Emitter, on_gen, emit_and_star}
use valutron.Compile.Messages.{gen_branch, with_jump, choose_on, loop_on}
use valutron.Compile.Layout.{LaidOut, choose_on-LaidOut, loop_on-LaidOut}

abbrev loads : (CodeGen → CodeGen) → Emitter
loads f = record {
  emit = λ st. done (on_gen f st);
  into_reg = emit_and_star (λ st. done (on_gen f st));
}

abbrev fresh : State
fresh = record { code_gen = new_code_gen 0 0 false; blocks = [] }

abbrev loaded : State
loaded = on_gen gen_load_true fresh

abbrev branched : State
branched = (with_jump (gen_branch true) loaded).0

abbrev code_of : Opcode → List Instr
code_of op = instr op [] ∷ []

-- Behind the jump, with the branch patched.
abbrev patched : State
patched =
    on_gen (patch_jump_to_here (with_jump (gen_branch true) loaded).1)
      (with_jump gen_jump (on_gen gen_load_nil branched)).0

choose_on-LaidOut_example :
    (st' : State) × (choose_on true
        (loads gen_load_true)
        (loads gen_load_nil)
        (loads gen_load_false)
        fresh
      ≡ done st')
    × LaidOut true fresh st'
        (code_of Opcode.lda_true)
        (code_of Opcode.lda_nil)
        (code_of Opcode.lda_false)
        8
        9
unfolding encode_all byte_of on_gen with_jump gen_branch new_code_gen gen_load_true gen_load_nil
    gen_load_false gen_jump patch_jump_to_here
choose_on-LaidOut_example =
    choose_on-LaidOut true (loads gen_load_true) (loads gen_load_nil) (loads gen_load_false) fresh
      loaded (on_gen gen_load_nil branched) (on_gen gen_load_false patched)
      (code_of Opcode.lda_true) (code_of Opcode.lda_nil) (code_of Opcode.lda_false) refl refl refl
      refl refl refl (omega arith)

loop_on-LaidOut_example :
    (st' : State) × (loop_on true (loads gen_load_true) (loads gen_load_nil).emit fresh ≡ done st')
    × LaidOut true fresh st' (code_of Opcode.lda_true) (code_of Opcode.lda_nil) [] 8 0
unfolding encode_all byte_of on_gen with_jump gen_branch new_code_gen gen_load_true gen_load_nil
loop_on-LaidOut_example =
    loop_on-LaidOut true (loads gen_load_true) (loads gen_load_nil).emit fresh loaded
      (on_gen gen_load_nil branched) (code_of Opcode.lda_true) (code_of Opcode.lda_nil) refl refl
      refl refl (omega arith)
