-- ===== src/Compile/Layout.antt =====
-- The code of choices and loops that `MessageExprNode::generateSpecialOn` of cmd/vm/AST.cc emits: what stands
-- where, and where the branches and jumps go.
use valutron.Prelude.{ℕ, ◌+◌, ◌^◌, ◌<◌, ◌≡◌, refl, Bool, List, [], ◌∷◌, ◌++◌, length, arith}
use valutron.Outcome.{Outcome, done}
use valutron.Bytecode.Instruction.{Instr}
use valutron.CodeGen.{gen_jump, patch_jump_to, patch_jump_to_here}
use valutron.Generated.Calls.{instr}
use valutron.Generated.Emit.{Appends}
use valutron.Compile.State.{State, Emitter, on_gen}
use valutron.Compile.Messages.{gen_branch, with_jump, skip_on, choose_on, loop_on}
use valutron.Compile.Landing.{bytes, branch, Targets, operand-Targets}
use valutron.Compile.Shapes.{two_jumps, skip-Appends}
use valutron.Compile.Jumps.{choose-Appends, loop-Appends}

-- The parts `is`, `js` and `ks` with a branch that goes to the address `first` behind the first of them, and a
-- jump that goes to `second` behind the second; the addresses count from the beginning of the parts.
abbrev pub LaidOut : Bool → State → State → List Instr → List Instr → List Instr → ℕ → ℕ → Type 0
LaidOut on_false st st' is js ks first second =
    (hi : ℕ) × (lo : ℕ) × (hi' : ℕ) × (lo' : ℕ) × Appends st.code_gen st'.code_gen
      (two_jumps on_false is js ks hi lo hi' lo')
    × Targets (bytes is) hi lo first
    × Targets (bytes is + 3 + bytes js) hi' lo' second

-- If the receiver of a choice emits `is`, the first argument `js` behind the branch and the second `ks` behind
-- the jump, less than 2 ^ 15 bytes in all, then the choice emits the receiver, a branch to the second
-- argument, the first argument, a jump to the end, and the second argument.
pub choose_on-LaidOut :
    (on_false : Bool) (receiver arg₀ arg₁ : Emitter) (st d e g : State) (is js ks : List Instr)
    → receiver.emit st ≡ done d
    → arg₀.emit (with_jump (gen_branch on_false) d).0 ≡ done e
    → arg₁.emit
        (on_gen (patch_jump_to_here (with_jump (gen_branch on_false) d).1) (with_jump gen_jump e).0)
      ≡ done g
    → Appends st.code_gen d.code_gen is
    → Appends (with_jump (gen_branch on_false) d).0.code_gen e.code_gen js
    → Appends
        (patch_jump_to_here (with_jump (gen_branch on_false) d).1 (with_jump gen_jump e).0.code_gen)
        g.code_gen
        ks
    → bytes is + bytes js + bytes ks + 6 < 2 ^ 15
    → (st' : State) × (choose_on on_false receiver arg₀ arg₁ st ≡ done st')
      × LaidOut on_false st st' is js ks
          (bytes is + 3 + bytes js + 3)
          (bytes is + 3 + bytes js + 3 + bytes ks)
unfolding choose_on with_jump on_gen
choose_on-LaidOut on_false receiver arg₀ arg₁ st d e g is js ks r₀ r₁ r₂ code code' code'' short =
    let base = length st.code_gen.bytecode in
    (
      on_gen (patch_jump_to_here (gen_jump e.code_gen).1) g,
      rw (r₀, r₁, r₂) refl,
      (
        _,
        _,
        _,
        _,
        choose-Appends on_false st.code_gen d.code_gen e.code_gen g.code_gen is js ks code code'
            code'',
        operand-Targets base (bytes is) (bytes is + 3 + bytes js + 3) (omega arith) (omega arith),
        operand-Targets base (bytes is + 3 + bytes js) (bytes is + 3 + bytes js + 3 + bytes ks)
            (omega arith) (omega arith),
      ),
    )

-- If the receiver of a loop emits `is` and the body `js` behind the branch, less than 2 ^ 15 bytes in all,
-- then the loop emits the receiver, a branch to the end, the body, and a jump to the beginning.
pub loop_on-LaidOut :
    (on_false : Bool) (receiver : Emitter) (body : State → Outcome State) (st d e : State)
    (is js : List Instr)
    → receiver.emit st ≡ done d
    → body (with_jump (gen_branch on_false) d).0 ≡ done e
    → Appends st.code_gen d.code_gen is
    → Appends (with_jump (gen_branch on_false) d).0.code_gen e.code_gen js
    → bytes is + bytes js + 6 < 2 ^ 15
    → (st' : State) × (loop_on on_false receiver body st ≡ done st')
      × LaidOut on_false st st' is js [] (bytes is + 3 + bytes js + 3) 0
unfolding loop_on with_jump on_gen
loop_on-LaidOut on_false receiver body st d e is js r₀ r₁ code code' short =
    let base = length st.code_gen.bytecode in
    (
      on_gen
          (λ c.
            patch_jump_to_here (gen_branch on_false d.code_gen).1
              (patch_jump_to (gen_jump c).1 base (gen_jump c).0))
          e,
      rw (r₀, r₁) refl,
      (
        _,
        _,
        _,
        _,
        loop-Appends on_false st.code_gen d.code_gen e.code_gen is js code code',
        operand-Targets base (bytes is) (bytes is + 3 + bytes js + 3) (omega arith) (omega arith),
        operand-Targets base (bytes is + 3 + bytes js) 0 (omega arith) (omega arith),
      ),
    )

-- If the receiver of `ifTrue:`, `ifFalse:` or `and:` emits `is` and the argument `js` behind the branch, less
-- than 2 ^ 15 bytes in all, then the message emits the receiver, a branch to the end, and the argument.
pub skip_on-Targets :
    (on_false : Bool) (receiver arg : Emitter) (st d e : State) (is js : List Instr)
    → receiver.emit st ≡ done d
    → arg.emit (with_jump (gen_branch on_false) d).0 ≡ done e
    → Appends st.code_gen d.code_gen is
    → Appends (with_jump (gen_branch on_false) d).0.code_gen e.code_gen js
    → bytes is + bytes js + 3 < 2 ^ 15
    → (st' : State) × (skip_on on_false receiver arg st ≡ done st')
      × ((hi : ℕ) × (lo : ℕ) × Appends st.code_gen st'.code_gen
            (is ++ instr (branch on_false) (hi ∷ lo ∷ []) ∷ js)
          × Targets (bytes is) hi lo (bytes is + 3 + bytes js))
unfolding skip_on with_jump on_gen
skip_on-Targets on_false receiver arg st d e is js r₀ r₁ code code' short =
    let base = length st.code_gen.bytecode in
    (
      on_gen (patch_jump_to_here (gen_branch on_false d.code_gen).1) e,
      rw (r₀, r₁) refl,
      (
        _,
        _,
        skip-Appends on_false st.code_gen d.code_gen e.code_gen is js code code',
        operand-Targets base (bytes is) (bytes is + 3 + bytes js) (omega arith) (omega arith),
      ),
    )
