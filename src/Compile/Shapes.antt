-- ===== src/Compile/Shapes.antt =====
-- The code of messages that are compiled inline: the branches and jumps of
-- `MessageExprNode::generateSpecialOn` of cmd/vm/AST.cc.
use mathlib.Core.List.{append_assoc}
use valutron.Prelude.{
  ℕ, ◌+◌, ◌≡◌, refl, ◌∙◌, sym, ap, Bool, true, false, List, [], ◌∷◌, ◌++◌, length, arith,
  length-append,
}
use valutron.Bytecode.{Opcode}
use valutron.Bytecode.Instruction.{
  Instr, AllInstr, IsInstr, AllInstr-append, arity, encode_all, encode_all-append,
}
use valutron.CodeGen.{
  CodeGen, gen_jump, gen_branch_if_false, gen_branch_if_true, patch_jump_to, patch_jump_to_here,
}
use valutron.Generated.Calls.{Call, perform, meaning, instr}
use valutron.Generated.Emit.{Appends, perform-Appends}
use valutron.Generated.Patching.{operand, patch-Appends}
use valutron.Compile.Landing.{
  bytes, bytes-append, bytes-cons, Cut, Cut-end, branch, operand-Reaches, Closed-skip,
}
use valutron.Compile.Leads.{Emitted}
use valutron.Compile.Messages.{gen_branch}

pub Appends-length :
    (c d : CodeGen) (is : List Instr)
    → Appends c d is
    → length d.bytecode ≡ length c.bytecode + bytes is
Appends-length c d is h = ap length h ∙ length-append c.bytecode (encode_all is)

Appends-trans :
    (c d e : CodeGen) (is js : List Instr)
    → Appends c d is
    → Appends d e js
    → Appends c e (is ++ js)
Appends-trans c d e is js h k = simp (k, h, encode_all-append is js, append_assoc)

branch-IsInstr : (on_false : Bool) (hi lo : ℕ) → IsInstr (instr (branch on_false) (hi ∷ lo ∷ []))
unfolding arity
branch-IsInstr true hi lo = tt
branch-IsInstr false hi lo = tt

gen_branch-Appends :
    (on_false : Bool) (c : CodeGen)
    → Appends c (gen_branch on_false c).0 (instr (branch on_false) (0 ∷ 0 ∷ []) ∷ [])
unfolding gen_branch perform meaning
gen_branch-Appends true c = perform-Appends Call.branch_if_false c
gen_branch-Appends false c = perform-Appends Call.branch_if_true c

gen_branch-end :
    (on_false : Bool) (c : CodeGen)
    → (gen_branch on_false c).1 ≡ length (gen_branch on_false c).0.bytecode
unfolding gen_branch gen_branch_if_false gen_branch_if_true
gen_branch-end true c = refl
gen_branch-end false c = refl

-- The length of code with a jump in it.
pub bytes-around :
    (is js : List Instr) (op : Opcode) (x y : ℕ)
    → bytes (is ++ instr op (x ∷ y ∷ []) ∷ js) ≡ bytes is + 3 + bytes js
unfolding encode_all
bytes-around is js op x y =
    omega
      (arith, bytes-append is (instr op (x ∷ y ∷ []) ∷ js), bytes-cons (instr op (x ∷ y ∷ [])) js)

pub bytes-hole :
    (is : List Instr) (op : Opcode) (x y : ℕ)
    → bytes (is ++ instr op (x ∷ y ∷ []) ∷ []) ≡ bytes is + 3
unfolding encode_all
bytes-hole is op x y = omega (arith, bytes-around is [] op x y)

-- Code with a hole behind it, and more code behind that.
pub extend :
    (c d e : CodeGen) (is js : List Instr) (i : Instr)
    → Appends c d (is ++ i ∷ [])
    → Appends d e js
    → Appends c e (is ++ i ∷ js)
extend c d e is js i h k = simp append_assoc at (Appends-trans c d e (is ++ i ∷ []) js h k)

-- `patchJumpTo`, of a jump between `is` and `js` that stands `n` bytes behind the beginning.
pub patch_to-Appends :
    (c d : CodeGen) (is js : List Instr) (op : Opcode) (loc n target : ℕ)
    → Appends c d (is ++ instr op (0 ∷ 0 ∷ []) ∷ js)
    → n ≡ bytes is
    → loc ≡ length c.bytecode + n + 3
    → (let base = length c.bytecode in
        Appends c
          (patch_jump_to loc (base + target) d)
          (is ++ instr op (operand (base + target) (base + n + 3)) ∷ js))
patch_to-Appends c d is js op loc n target code at here =
    rw (sym here) (
      patch-Appends c d is js op 0 0 loc (length c.bytecode + target) code
        (omega (arith, at, here)))

-- `patchJumpToHere`, when there are `target` bytes behind the beginning.
pub patch_here-Appends :
    (c d : CodeGen) (is js : List Instr) (op : Opcode) (loc n target : ℕ)
    → Appends c d (is ++ instr op (0 ∷ 0 ∷ []) ∷ js)
    → n ≡ bytes is
    → target ≡ n + 3 + bytes js
    → loc ≡ length c.bytecode + n + 3
    → (let base = length c.bytecode in
        Appends c
          (patch_jump_to_here loc d)
          (is ++ instr op (operand (base + target) (base + n + 3)) ∷ js))
unfolding patch_jump_to_here patch_jump_to
patch_here-Appends c d is js op loc n target code at size here =
    let end : length d.bytecode ≡ length c.bytecode + target = omega (
      arith,
      at,
      size,
      Appends-length c d (is ++ instr op (0 ∷ 0 ∷ []) ∷ js) code,
      bytes-around is js op 0 0,
    ) in
    rw end (patch_to-Appends c d is js op loc n target code at here)

-- An unpatched branch or jump.
abbrev pub hole : Opcode → Instr
hole op = instr op (0 ∷ 0 ∷ [])

-- Where the hole of a branch, or of a jump, ends.
pub till_branch :
    (on_false : Bool) (c d : CodeGen) (is : List Instr)
    → Appends c d is
    → Appends c (gen_branch on_false d).0 (is ++ hole (branch on_false) ∷ [])
      × ((gen_branch on_false d).1 ≡ length c.bytecode + bytes is + 3)
till_branch on_false c d is code =
    let b = gen_branch on_false d in
    let till : Appends c b.0 (is ++ hole (branch on_false) ∷ []) =
      Appends-trans c d b.0 is (hole (branch on_false) ∷ []) code (gen_branch-Appends on_false d) in
    (
      till,
      omega (
        arith,
        gen_branch-end on_false d,
        Appends-length c b.0 (is ++ hole (branch on_false) ∷ []) till,
        bytes-hole is (branch on_false) 0 0,
      ),
    )

pub till_jump :
    (c d : CodeGen) (is : List Instr) (n : ℕ)
    → Appends c d is
    → n ≡ bytes is
    → Appends c (gen_jump d).0 (is ++ hole Opcode.jump ∷ [])
      × ((gen_jump d).1 ≡ length c.bytecode + n + 3)
unfolding gen_jump perform meaning
till_jump c d is n code at =
    let j = gen_jump d in
    let till : Appends c j.0 (is ++ hole Opcode.jump ∷ []) =
      Appends-trans c d j.0 is (hole Opcode.jump ∷ []) code (perform-Appends Call.jump d) in
    (
      till,
      omega (
        arith,
        at,
        Appends-length c j.0 (is ++ hole Opcode.jump ∷ []) till,
        bytes-hole is Opcode.jump 0 0,
      ),
    )

-- The code of a branch over the argument `js`, to the end.
abbrev pub skipping : Bool → ℕ → List Instr → List Instr → List Instr
skipping on_false base is js =
    let n = bytes is in
    let target = n + 3 + bytes js in
    is ++ instr (branch on_false) (operand (base + target) (base + n + 3)) ∷ js

-- Behind the receiver `is`, a branch over the argument `js`.
pub skip-Appends :
    (on_false : Bool) (c d e : CodeGen) (is js : List Instr)
    → Appends c d is
    → Appends (gen_branch on_false d).0 e js
    → Appends c
        (patch_jump_to_here (gen_branch on_false d).1 e)
        (skipping on_false (length c.bytecode) is js)
skip-Appends on_false c d e is js code code' =
    let b = gen_branch on_false d in
    let (till, loc) = till_branch on_false c d is code in
    patch_here-Appends c e is js (branch on_false) b.1 (bytes is) (bytes is + 3 + bytes js)
      (extend c b.0 e is js (hole (branch on_false)) till code') refl refl loc

pub skip-Emitted :
    (on_false : Bool) (c d e : CodeGen) (is js : List Instr)
    → Emitted c d is
    → Emitted (gen_branch on_false d).0 e js
    → (whole : List Instr) × Emitted c (patch_jump_to_here (gen_branch on_false d).1 e) whole
skip-Emitted on_false c d e is js (code, all, closed) (code', all', closed') =
    let base = length c.bytecode in
    let n = bytes is in
    let target = n + 3 + bytes js in
    let i = instr (branch on_false) (operand (base + target) (base + n + 3)) in
    let whole = skipping on_false base is js in
    let size : bytes whole ≡ target = bytes-around is js (branch on_false) _ _ in
    (
      whole,
      (
        skip-Appends on_false c d e is js code code',
        AllInstr-append is (i ∷ js) all (branch-IsInstr on_false _ _, all'),
        λ short.
            Closed-skip on_false is js _ _ (closed (omega (arith, size)))
              (closed' (omega (arith, size)))
              (operand-Reaches whole base n target (Cut-end whole target size) (omega (arith, size))
                (omega arith)),
      ),
    )

-- The code of a branch and of a jump with their operands.
module _ (on_false : Bool) (is js ks : List Instr) (hi lo hi' lo' : ℕ) where
  abbrev pub two_jumps : List Instr
  two_jumps =
      is ++ instr (branch on_false) (hi ∷ lo ∷ []) ∷ (js ++ instr Opcode.jump (hi' ∷ lo' ∷ []) ∷ ks)

  pub two_jumps-bytes : bytes two_jumps ≡ bytes is + 3 + bytes js + 3 + bytes ks
  two_jumps-bytes = omega (
    arith,
    bytes-around is (js ++ instr Opcode.jump (hi' ∷ lo' ∷ []) ∷ ks) (branch on_false) hi lo,
    bytes-around js ks Opcode.jump hi' lo',
  )

  -- Behind the jump there is a cut.
  pub two_jumps-Cut : Cut two_jumps (bytes is + 3 + bytes js + 3)
  two_jumps-Cut = (
    is ++ instr (branch on_false) (hi ∷ lo ∷ []) ∷ (js ++ instr Opcode.jump (hi' ∷ lo' ∷ []) ∷ []),
    ks,
    simp append_assoc,
    omega (
      arith,
      bytes-around is (js ++ instr Opcode.jump (hi' ∷ lo' ∷ []) ∷ []) (branch on_false) hi lo,
      bytes-hole js Opcode.jump hi' lo',
    ),
  )

  pub two_jumps-AllInstr : AllInstr is → AllInstr js → AllInstr ks → AllInstr two_jumps
  unfolding arity
  two_jumps-AllInstr h k l =
      AllInstr-append is
        (instr (branch on_false) (hi ∷ lo ∷ []) ∷ (js ++ instr Opcode.jump (hi' ∷ lo' ∷ []) ∷ ks)) h
        (
          branch-IsInstr on_false hi lo,
          AllInstr-append js (instr Opcode.jump (hi' ∷ lo' ∷ []) ∷ ks) k (tt, l),
        )
