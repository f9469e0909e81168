-- ===== src/Compile/Jumps.antt =====
-- The two shapes of `MessageExprNode::generateSpecialOn` (cmd/vm/AST.cc) that have a branch and a jump: a
-- choice and a loop.
use mathlib.Core.List.{append_assoc}
use valutron.Prelude.{
  ℕ, ◌+◌, ◌/◌, ◌%◌, ◌≡◌, refl, sym, subst, Bool, List, [], ◌∷◌, ◌++◌, length, arith,
}
use valutron.Bytecode.{Opcode}
use valutron.Bytecode.Instruction.{Instr, encode_all}
use valutron.CodeGen.{CodeGen, relative, gen_jump, patch_jump_to, patch_jump_to_here}
use valutron.Generated.Calls.{instr}
use valutron.Generated.Emit.{Appends}
use valutron.Generated.Patching.{operand}
use valutron.Compile.Landing.{bytes, Cut-begin, Cut-end, branch, operand-Reaches, Closed-jumps}
use valutron.Compile.Leads.{Emitted}
use valutron.Compile.Messages.{gen_branch}
use valutron.Compile.Shapes.{
  extend, patch_to-Appends, patch_here-Appends, hole, till_branch, till_jump, two_jumps,
  two_jumps-bytes, bytes-hole, two_jumps-Cut, two_jumps-AllInstr, bytes-around,
}

-- The code of a choice that begins at `base`: the branch goes behind the jump, and the jump to the end.
abbrev pub chosen : Bool → ℕ → List Instr → List Instr → List Instr → List Instr
chosen on_false base is js ks =
    let n = bytes is in
    let n' = n + 3 + bytes js in
    let skip_first = n' + 3 in
    let skip_second = skip_first + bytes ks in
    two_jumps on_false is js ks (relative (base + skip_first) (base + n + 3) / 256)
      (relative (base + skip_first) (base + n + 3) % 256)
      (relative (base + skip_second) (base + n' + 3) / 256)
      (relative (base + skip_second) (base + n' + 3) % 256)

-- Behind the receiver `is`, the code of the two arguments.
pub choose-Appends :
    (on_false : Bool) (c d e g : CodeGen) (is js ks : List Instr)
    → Appends c d is
    → Appends (gen_branch on_false d).0 e js
    → Appends (patch_jump_to_here (gen_branch on_false d).1 (gen_jump e).0) g ks
    → Appends c (patch_jump_to_here (gen_jump e).1 g) (chosen on_false (length c.bytecode) is js ks)
choose-Appends on_false c d e g is js ks code code' code'' =
    let b = gen_branch on_false d in
    let j = gen_jump e in
    let f = patch_jump_to_here b.1 j.0 in
    let base = length c.bytecode in
    let op = branch on_false in
    let (till_b, at_b) = till_branch on_false c d is code in
    let n = bytes is in
    let n' = n + 3 + bytes js in
    let skip_first = n' + 3 in
    let skip_second = skip_first + bytes ks in
    let (till_j, at_j) =
      till_jump c e (is ++ hole op ∷ js) n' (extend c b.0 e is js (hole op) till_b code')
        (sym (bytes-around is js op 0 0)) in
    let i = instr op (operand (base + skip_first) (base + n + 3)) in
    let first : Appends c f (is ++ i ∷ (js ++ hole Opcode.jump ∷ [])) =
      patch_here-Appends c j.0 is (js ++ hole Opcode.jump ∷ []) op b.1 n skip_first
        (simp append_assoc at till_j) refl (omega (arith, bytes-hole js Opcode.jump 0 0)) at_b in
    let second : Appends c g ((is ++ i ∷ js) ++ hole Opcode.jump ∷ ks) =
      extend c f g (is ++ i ∷ js) ks (hole Opcode.jump) (simp append_assoc first) code'' in
    let jumped =
      patch_here-Appends c g (is ++ i ∷ js) ks Opcode.jump j.1 n' skip_second second
        (sym (bytes-around is js op _ _)) refl at_j in
    simp append_assoc at jumped

pub choose-Emitted :
    (on_false : Bool) (c d e g : CodeGen) (is js ks : List Instr)
    → Emitted c d is
    → Emitted (gen_branch on_false d).0 e js
    → Emitted (patch_jump_to_here (gen_branch on_false d).1 (gen_jump e).0) g ks
    → (whole : List Instr) × Emitted c (patch_jump_to_here (gen_jump e).1 g) whole
choose-Emitted on_false c d e g is js ks (code, all, closed) (code', all', closed')
      (code'', all'', closed'') =
    let base = length c.bytecode in
    let n = bytes is in
    let n' = n + 3 + bytes js in
    let skip_second = n' + 3 + bytes ks in
    let whole = chosen on_false base is js ks in
    let size : bytes whole ≡ skip_second = two_jumps-bytes on_false is js ks _ _ _ _ in
    (
      whole,
      (
        choose-Appends on_false c d e g is js ks code code' code'',
        two_jumps-AllInstr on_false is js ks _ _ _ _ all all' all'',
        λ short.
            Closed-jumps on_false is js ks _ _ _ _ (closed (omega (arith, size)))
              (closed' (omega (arith, size))) (closed'' (omega (arith, size)))
              (operand-Reaches whole base n (n' + 3) (two_jumps-Cut on_false is js ks _ _ _ _)
                (omega (arith, size)) (omega arith))
              (operand-Reaches whole base n' skip_second (Cut-end whole skip_second size)
                (omega (arith, size)) (omega arith)),
      ),
    )

-- The code of a loop: the branch goes to the end, and the jump to the beginning.
abbrev pub looped : Bool → ℕ → List Instr → List Instr → List Instr
looped on_false base is js =
    let n = bytes is in
    let n' = n + 3 + bytes js in
    let end = n' + 3 in
    two_jumps on_false is js [] (relative (base + end) (base + n + 3) / 256)
      (relative (base + end) (base + n + 3) % 256) (relative (base + 0) (base + n' + 3) / 256)
      (relative (base + 0) (base + n' + 3) % 256)

-- Behind the receiver `is`, the body of the loop, and the jump to the beginning.
pub loop-Appends :
    (on_false : Bool) (c d e : CodeGen) (is js : List Instr)
    → Appends c d is
    → Appends (gen_branch on_false d).0 e js
    → Appends c
        (patch_jump_to_here
          (gen_branch on_false d).1
          (patch_jump_to (gen_jump e).1 (length c.bytecode) (gen_jump e).0))
        (looped on_false (length c.bytecode) is js)
loop-Appends on_false c d e is js code code' =
    let b = gen_branch on_false d in
    let j = gen_jump e in
    let base = length c.bytecode in
    let f = patch_jump_to j.1 (base + 0) j.0 in
    let start : base + 0 ≡ base = omega arith in
    let op = branch on_false in
    let (till_b, at_b) = till_branch on_false c d is code in
    let n = bytes is in
    let n' = n + 3 + bytes js in
    let (till_j, at_j) =
      till_jump c e (is ++ hole op ∷ js) n' (extend c b.0 e is js (hole op) till_b code')
        (sym (bytes-around is js op 0 0)) in
    let back = instr Opcode.jump (operand (base + 0) (base + n' + 3)) in
    let jumped : Appends c f ((is ++ hole op ∷ js) ++ back ∷ []) =
      patch_to-Appends c j.0 (is ++ hole op ∷ js) [] Opcode.jump j.1 n' 0 till_j
        (sym (bytes-around is js op 0 0)) at_j in
    let branched =
      patch_here-Appends c f is (js ++ back ∷ []) op b.1 n (n' + 3) (simp append_assoc at jumped)
        refl
        (omega (
          arith,
          bytes-hole js Opcode.jump (relative (base + 0) (base + n' + 3) / 256)
              (relative (base + 0) (base + n' + 3) % 256),
        ))
        at_b in
    subst
      (λ m.
        Appends c (patch_jump_to_here b.1 (patch_jump_to j.1 m j.0)) (looped on_false base is js))
      start branched

pub loop-Emitted :
    (on_false : Bool) (c d e : CodeGen) (is js : List Instr)
    → Emitted c d is
    → Emitted (gen_branch on_false d).0 e js
    → (whole : List Instr) × Emitted c
        (patch_jump_to_here
          (gen_branch on_false d).1
          (patch_jump_to (gen_jump e).1 (length c.bytecode) (gen_jump e).0))
        whole
unfolding encode_all
loop-Emitted on_false c d e is js (code, all, closed) (code', all', closed') =
    let base = length c.bytecode in
    let n = bytes is in
    let n' = n + 3 + bytes js in
    let end = n' + 3 in
    let whole = looped on_false base is js in
    let size : bytes whole ≡ end + bytes [] = two_jumps-bytes on_false is js [] _ _ _ _ in
    (
      whole,
      (
        loop-Appends on_false c d e is js code code',
        two_jumps-AllInstr on_false is js [] _ _ _ _ all all' tt,
        λ short.
            Closed-jumps on_false is js [] _ _ _ _ (closed (omega (arith, size)))
              (closed' (omega (arith, size))) tt
              (operand-Reaches whole base n end (Cut-end whole end (omega (arith, size)))
                (omega (arith, size)) (omega arith))
              (operand-Reaches whole base n' 0 (Cut-begin whole) (omega (arith, size))
                (omega (arith, size))),
      ),
    )
