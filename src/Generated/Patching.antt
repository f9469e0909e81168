-- ===== src/Generated/Patching.antt =====
-- patchJumpTo and patchJumpToHere of cmd/vm/Generation.cc on code that is made of instructions.
use mathlib.Core.List.{append_assoc}
use valutron.Prelude.{
  ℕ, suc, ◌+◌, ◌-◌, ◌/◌, ◌%◌, ◌≡◌, refl, ap, List, [], ◌∷◌, ◌++◌, length, set, arith, length-append,
}
use valutron.Bytecode.{Opcode, byte_of}
use valutron.Bytecode.Instruction.{Instr, encode_all, encode_all-append}
use valutron.CodeGen.{CodeGen, relative, patch_jump_to}
use valutron.Generated.Calls.{instr}
use valutron.Generated.Emit.{Appends}

set-append {ℓ} :
    {A : Type ℓ} (xs ys : List A) (i : ℕ) (v : A)
    → set (xs ++ ys) (length xs + i) v ≡ xs ++ set ys i v
set-append [] ys i v = ap (λ n. set ys n v) (omega arith)
set-append (x ∷ xs) ys i v =
    let index : suc (length xs) + i ≡ suc (length xs + i) = omega arith in
    rw (index, set-append xs ys i v) refl

-- The operand that a patch from `loc` to `target` writes.
abbrev pub operand : ℕ → ℕ → List ℕ
operand target loc = relative target loc / 256 ∷ relative target loc % 256 ∷ []

patch-bytes :
    (xs : List ℕ) (b hi lo x y : ℕ) (ys : List ℕ)
    → set (set (xs ++ b ∷ x ∷ y ∷ ys) (length xs + 3 - 1) lo) (length xs + 3 - 2) hi
      ≡ xs ++ b ∷ hi ∷ lo ∷ ys
patch-bytes xs b hi lo x y ys =
    let low : length xs + 3 - 1 ≡ length xs + 2 = omega arith in
    let high : length xs + 3 - 2 ≡ length xs + 1 = omega arith in
    rw (low, high, set-append xs (b ∷ x ∷ y ∷ ys) 2 lo, set-append xs (b ∷ x ∷ lo ∷ ys) 1 hi) refl

around-bytes :
    (before : List ℕ) (is js : List Instr) (op : Opcode) (x y : ℕ)
    → before ++ encode_all (is ++ instr op (x ∷ y ∷ []) ∷ js)
      ≡ (before ++ encode_all is) ++ byte_of op ∷ x ∷ y ∷ encode_all js
unfolding encode_all
around-bytes before is js op x y =
    simp (encode_all-append is (instr op (x ∷ y ∷ []) ∷ js), append_assoc)

-- A patch replaces the operand of the jump that ends at `loc`, and nothing else.
pub patch-Appends :
    (c d : CodeGen) (is js : List Instr) (op : Opcode) (x y loc target : ℕ)
    → Appends c d (is ++ instr op (x ∷ y ∷ []) ∷ js)
    → loc ≡ length c.bytecode + length (encode_all is) + 3
    → Appends c (patch_jump_to loc target d) (is ++ instr op (operand target loc) ∷ js)
unfolding patch_jump_to
patch-Appends c d is js op x y loc target code here =
    let before = c.bytecode ++ encode_all is in
    let place : loc ≡ length before + 3 =
      omega (arith, here, length-append c.bytecode (encode_all is)) in
    rw
      (
        code,
        around-bytes c.bytecode is js op x y,
        around-bytes c.bytecode is js op (relative target loc / 256) (relative target loc % 256),
        place,
      )
      (patch-bytes before (byte_of op) (relative target (length before + 3) / 256)
        (relative target (length before + 3) % 256) x y (encode_all js))
