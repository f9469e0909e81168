-- ===== src/Generated/Jumps.antt =====
-- Patched jumps: patchJumpTo and patchJumpToHere of cmd/vm/Generation.cc, and where `pc` is taken.
use valutron.Prelude.{
  ℕ, ◌+◌, ◌-◌, ◌/◌, ◌%◌, ◌^◌, ◌<◌, ◌≤◌, ◌≡◌, ◌≢◌, refl, ◌∙◌, sym, some, List, arith, length, set,
  get_elem?, length-set, get_elem?-set_self, get_elem?-set_ne,
}
use valutron.Prelude.Int.{ℤ, pos, ◌+ℤ◌, ◌-ℤ◌}
use valutron.Bytecode.{int16}
use valutron.CodeGen.{CodeGen, relative, patch_jump_to, patch_jump_to_here}

-- Where `pc`, standing behind the operand of a jump at `loc`, is taken by the bytes of that operand.
abbrev pub LandsAt : List ℕ → ℕ → ℤ → Type 0
LandsAt code loc dest =
    (hi : ℕ) × (lo : ℕ) × (get_elem? code (loc - 2) ≡ some hi)
    × (get_elem? code (loc - 1) ≡ some lo)
    × (pos loc +ℤ int16 hi lo ≡ dest)

relative-int16 :
    (target loc : ℕ)
    → target < loc + 2 ^ 15
    → loc ≤ target + 2 ^ 15
    → pos loc +ℤ int16 (relative target loc / 256) (relative target loc % 256) ≡ pos target
unfolding relative int16 ◌+ℤ◌
relative-int16 target loc h k = ground arith

relative-int16_far :
    (target loc : ℕ)
    → loc + 2 ^ 15 ≤ target
    → target < loc + 2 ^ 16
    → pos loc +ℤ int16 (relative target loc / 256) (relative target loc % 256)
      ≡ pos target -ℤ pos (2 ^ 16)
unfolding relative int16 ◌+ℤ◌ ◌-ℤ◌
relative-int16_far target loc h k = ground arith

module _ (c : CodeGen) (loc target : ℕ) (two : 2 ≤ loc) (inside : loc ≤ length c.bytecode) where
  patched :
      LandsAt
        (patch_jump_to loc target c).bytecode
        loc
        (pos loc +ℤ int16 (relative target loc / 256) (relative target loc % 256))
  unfolding patch_jump_to
  patched =
      let r = relative target loc in
      let low = set c.bytecode (loc - 1) (r % 256) in
      (
        r / 256,
        r % 256,
        get_elem?-set_self low (loc - 2) (r / 256)
            (omega (arith, length-set {0} c.bytecode (loc - 1) (r % 256))),
        get_elem?-set_ne low {i = loc - 2} {j = loc - 1} (r / 256) (omega arith)
            ∙ get_elem?-set_self c.bytecode (loc - 1) (r % 256) (omega arith),
        refl,
      )

  -- If `loc` is an address in the code, or its end, with two bytes before it, and the target is less
  -- than 2 ^ 15 bytes ahead of it or at most 2 ^ 15 behind it, then after `patchJumpTo` the two
  -- bytes before `loc` are an operand that takes `pc` from `loc` to the target.
  pub patch_jump_to-LandsAt :
      target < loc + 2 ^ 15
      → loc ≤ target + 2 ^ 15
      → LandsAt (patch_jump_to loc target c).bytecode loc (pos target)
  patch_jump_to-LandsAt near back = rw (relative-int16 target loc near back) at patched

  -- If `loc` is an address in the code, or its end, with two bytes before it, and the target is 2 ^
  -- 15 to 2 ^ 16 - 1 bytes ahead, then after `patchJumpTo` the two bytes before `loc` are an operand
  -- that takes `pc` from `loc` 2 ^ 16 bytes short of the target.
  pub patch_jump_to-far :
      loc + 2 ^ 15 ≤ target
      → target < loc + 2 ^ 16
      → LandsAt (patch_jump_to loc target c).bytecode loc (pos target -ℤ pos (2 ^ 16))
  patch_jump_to-far far back = rw (relative-int16_far target loc far back) at patched

  -- If `loc` is an address in the code, or its end, with two bytes before it, then `patchJumpTo`
  -- keeps every byte but those two, the length of the code, and the literals.
  pub patch_jump_to-frame :
      (i : ℕ)
      → i ≢ loc - 1
      → i ≢ loc - 2
      → (get_elem? (patch_jump_to loc target c).bytecode i ≡ get_elem? c.bytecode i)
        × (length (patch_jump_to loc target c).bytecode ≡ length c.bytecode)
        × ((patch_jump_to loc target c).literals ≡ c.literals)
  unfolding patch_jump_to
  patch_jump_to-frame i first second =
      let r = relative target loc in
      let low = set c.bytecode (loc - 1) (r % 256) in
      (
        get_elem?-set_ne low (r / 256) (λ e. second (sym e))
            ∙ get_elem?-set_ne c.bytecode (r % 256) (λ e. first (sym e)),
        length-set low (loc - 2) (r / 256) ∙ length-set c.bytecode (loc - 1) (r % 256),
        refl,
      )

-- `patchJumpToHere` is the same with the end of the code for a target.
pub patch_jump_to_here-LandsAt :
    (c : CodeGen) (loc : ℕ)
    → 2 ≤ loc
    → loc ≤ length c.bytecode
    → length c.bytecode < loc + 2 ^ 15
    → LandsAt (patch_jump_to_here loc c).bytecode loc (pos (length c.bytecode))
unfolding patch_jump_to_here patch_jump_to
patch_jump_to_here-LandsAt c loc two inside near =
    patch_jump_to-LandsAt c loc (length c.bytecode) two inside near (omega arith)
