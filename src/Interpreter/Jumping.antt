-- ===== src/Interpreter/Jumping.antt =====
-- A jump that the generator (cmd/vm/Generation.cc) has patched, in `execute` of cmd/vm/Interpreter.cc.
use valutron.Prelude.{
  ℕ, ◌+◌, ◌-◌, ◌^◌, ◌<◌, ◌≤◌, ◌≡◌, refl, ap, ◌∙◌, Bool, true, false, some, get_elem?, length, arith,
  if◌then◌else◌,
}
use valutron.Prelude.Int.{pos}
use valutron.Outcome.{done}
use valutron.CodeGen.{CodeGen, patch_jump_to}
use valutron.Generated.Jumps.{LandsAt, patch_jump_to-LandsAt}
use valutron.Interpreter.State.{Machine, goes, code_of, next_byte}
use valutron.Interpreter.Sends.{jump_if}

jump_if-LandsAt :
    (m : Machine) (taken : Bool) (loc target : ℕ)
    → 2 ≤ loc
    → m.pc ≡ loc - 2
    → LandsAt (code_of m).bytecode loc (pos target)
    → jump_if taken m ≡ done (goes (record m { pc = if taken then target else loc }))
unfolding jump_if next_byte
jump_if-LandsAt m taken loc target two at_operand (hi, lo, first, second, lands) =
    let e₁ : get_elem? (code_of m).bytecode m.pc ≡ some hi =
      ap (get_elem? (code_of m).bytecode) at_operand ∙ first in
    let next : m.pc + 1 ≡ loc - 1 = omega arith in
    let e₂ : get_elem? (code_of m).bytecode (m.pc + 1) ≡ some lo =
      ap (get_elem? (code_of m).bytecode) next ∙ second in
    let after : m.pc + 1 + 1 ≡ loc = omega arith in
    elim taken as (λ b. jump_if b m ≡ done (goes (record m { pc = if b then target else loc }))) [
      | true ↦ rw (e₁, e₂, after, lands) refl
      | false ↦ rw (e₁, e₂, after) refl
    ]

-- If a method's code is that of the generator after `patchJumpTo`, with the target less than 2 ^ 15 bytes
-- ahead of the address behind the jump or at most 2 ^ 15 behind it, then the interpreter, at the operand of
-- that jump, goes on at the target if the jump is taken, and behind the jump if it is not, and changes
-- nothing else.
pub jump_if-patch_jump_to :
    (c : CodeGen) (loc target : ℕ) (m : Machine) (taken : Bool)
    → 2 ≤ loc
    → loc ≤ length c.bytecode
    → target < loc + 2 ^ 15
    → loc ≤ target + 2 ^ 15
    → (code_of m).bytecode ≡ (patch_jump_to loc target c).bytecode
    → m.pc ≡ loc - 2
    → jump_if taken m ≡ done (goes (record m { pc = if taken then target else loc }))
jump_if-patch_jump_to c loc target m taken two inside near back same at_operand =
    jump_if-LandsAt m taken loc target two at_operand
      (rw same (patch_jump_to-LandsAt c loc target two inside near back))
