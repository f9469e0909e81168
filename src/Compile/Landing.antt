-- ===== src/Compile/Landing.antt =====
-- Where the jumps in a sequence of instructions land, as `execute` of cmd/vm/Interpreter.cc takes them.
use mathlib.Core.List.{append_assoc, append-nil}
use valutron.Prelude.{
  ◌/◌, ◌%◌, ℕ, ◌^◌, Bool, true, false, if◌then◌else◌, ◌+◌, ◌<◌, ◌≤◌, ◌≡◌, refl, ◌∙◌, sym, subst,
  List, [], ◌∷◌, ◌++◌, length, arith, length-append,
}
use valutron.Prelude.Int.{pos, ◌+ℤ◌}
use valutron.Bytecode.{Opcode, int16}
use valutron.Bytecode.Instruction.{Instr, encode, encode_all, encode_all-append}
use valutron.CodeGen.{relative}
use valutron.Generated.Calls.{instr}
use valutron.Generated.Patching.{operand}

abbrev pub bytes : List Instr → ℕ
bytes is = length (encode_all is)

pub bytes-append : (is js : List Instr) → bytes (is ++ js) ≡ bytes is + bytes js
bytes-append is js = rw (encode_all-append is js) (length-append (encode_all is) (encode_all js))

pub bytes-cons : (i : Instr) (is : List Instr) → bytes (i ∷ is) ≡ length (encode i) + bytes is
unfolding encode_all
bytes-cons i is = length-append (encode i) (encode_all is)

-- An instruction begins `n` bytes into the code, or the code ends there.
abbrev pub Cut : List Instr → ℕ → Type 0
Cut is n = (js : List Instr) × (ks : List Instr) × (is ≡ js ++ ks) × (n ≡ bytes js)

-- The operand of the jump at `n` takes `pc` from behind the jump to an instruction.
abbrev pub Reaches : List Instr → ℕ → List ℕ → Type 0
Reaches code n (hi ∷ lo ∷ []) =
    (target : ℕ) × Cut code target × (pos (n + 3) +ℤ int16 hi lo ≡ pos target)
Reaches code n _ = ⊥

abbrev pub Lands : List Instr → ℕ → Opcode → List ℕ → Type 0
Lands code n Opcode.jump args = Reaches code n args
Lands code n Opcode.branch_if_true args = Reaches code n args
Lands code n Opcode.branch_if_false args = Reaches code n args
Lands code n _ args = Unit

-- The jumps among the instructions from `n` on land in the code.
abbrev pub AllLand : List Instr → ℕ → List Instr → Type 0
AllLand code n [] = Unit
AllLand code n (i ∷ is) = Lands code n i.op i.args × AllLand code (n + length (encode i)) is

-- Every jump of the code lands in the code.
abbrev pub Closed : List Instr → Type 0
Closed is = AllLand is 0 is

pub Cut-begin : (is : List Instr) → Cut is 0
unfolding encode_all
Cut-begin is = ([], is, refl, refl)

pub Cut-end : (is : List Instr) (n : ℕ) → bytes is ≡ n → Cut is n
Cut-end is n e = (is, [], simp append-nil, sym e)

-- A cut of a part is a cut of the whole.
pub Cut-part :
    (is js ks whole : List Instr) (n : ℕ)
    → whole ≡ is ++ (js ++ ks)
    → Cut js n
    → Cut whole (bytes is + n)
Cut-part is js ks whole n e (before, after, split, at) = (
  is ++ before,
  after ++ ks,
  e ∙ simp (split, append_assoc),
  rw at (sym (bytes-append is before)),
)

Reaches-shift :
    (is js ks whole : List Instr) (n : ℕ) (args : List ℕ)
    → whole ≡ is ++ (js ++ ks)
    → Reaches js n args
    → Reaches whole (bytes is + n) args
unfolding ◌+ℤ◌ int16
Reaches-shift is js ks whole n (hi ∷ lo ∷ []) e (target, cut, at) =
    (bytes is + target, Cut-part is js ks whole target e cut, ground arith)
Reaches-shift is js ks whole n [] e h = elim h [ ]
Reaches-shift is js ks whole n (hi ∷ []) e h = elim h [ ]
Reaches-shift is js ks whole n (hi ∷ lo ∷ x ∷ xs) e h = elim h [ ]

Lands-shift :
    (is js ks whole : List Instr) (n : ℕ) (op : Opcode) (args : List ℕ)
    → whole ≡ is ++ (js ++ ks)
    → Lands js n op args
    → Lands whole (bytes is + n) op args
Lands-shift is js ks whole n Opcode.jump args e h = Reaches-shift is js ks whole n args e h
Lands-shift is js ks whole n Opcode.branch_if_true args e h =
    Reaches-shift is js ks whole n args e h
Lands-shift is js ks whole n Opcode.branch_if_false args e h =
    Reaches-shift is js ks whole n args e h
Lands-shift is js ks whole n _ args e h = ground arith

pub AllLand-at : (code is : List Instr) {n m : ℕ} → n ≡ m → AllLand code n is → AllLand code m is
AllLand-at code is e h = subst (λ m. AllLand code m is) e h

-- What lands in a part lands in the whole.
AllLand-shift :
    (is js ks whole : List Instr) (n : ℕ) (ls : List Instr)
    → whole ≡ is ++ (js ++ ks)
    → AllLand js n ls
    → AllLand whole (bytes is + n) ls
AllLand-shift is js ks whole n [] e h = tt
AllLand-shift is js ks whole n (l ∷ ls) e h = (
  Lands-shift is js ks whole n l.op l.args e h.0,
  AllLand-at whole ls (omega arith) (AllLand-shift is js ks whole (n + length (encode l)) ls e h.1),
)

-- A closed part of the code lands in the code.
pub Closed-part :
    (is js ks whole : List Instr)
    → whole ≡ is ++ (js ++ ks)
    → Closed js
    → AllLand whole (bytes is) js
Closed-part is js ks whole e h =
    AllLand-at whole js (omega arith) (AllLand-shift is js ks whole 0 js e h)

pub AllLand-append :
    (code : List Instr) (n : ℕ) (is js : List Instr)
    → AllLand code n is
    → AllLand code (n + bytes is) js
    → AllLand code n (is ++ js)
unfolding encode_all
AllLand-append code n [] js h k = AllLand-at code js (omega arith) k
AllLand-append code n (i ∷ is) js h k = (
  h.0,
  AllLand-append code (n + length (encode i)) is js h.1
      (AllLand-at code js (omega (arith, bytes-cons i is)) k),
)

pub Closed-append : (is js : List Instr) → Closed is → Closed js → Closed (is ++ js)
unfolding encode_all
Closed-append is js h k =
    AllLand-append (is ++ js) 0 is js (Closed-part [] is js (is ++ js) refl h)
      (AllLand-at (is ++ js) js (omega arith) (Closed-part is js [] (is ++ js) (simp append-nil) k))

-- The branch that a message takes on false, or on true.
abbrev pub branch : Bool → Opcode
branch on_false = if on_false then Opcode.branch_if_false else Opcode.branch_if_true

pub branch-Lands :
    (on_false : Bool) (code : List Instr) (n : ℕ) (args : List ℕ)
    → Reaches code n args
    → Lands code n (branch on_false) args
branch-Lands true code n args h = h
branch-Lands false code n args h = h

-- The operand of a jump at `n` takes `pc` from behind the jump to `target`.
abbrev pub Targets : ℕ → ℕ → ℕ → ℕ → Type 0
Targets n hi lo target = pos (n + 3) +ℤ int16 hi lo ≡ pos target

-- A patched jump goes to its target, which is near enough, wherever the code begins.
pub operand-Targets :
    (base n target : ℕ)
    → target < n + 2 ^ 15
    → n + 3 ≤ target + 2 ^ 15
    → Targets n
        (relative (base + target) (base + n + 3) / 256)
        (relative (base + target) (base + n + 3) % 256)
        target
unfolding relative int16 ◌+ℤ◌
operand-Targets base n target near back = ground arith

pub operand-Reaches :
    (code : List Instr) (base n target : ℕ)
    → Cut code target
    → target < n + 2 ^ 15
    → n + 3 ≤ target + 2 ^ 15
    → Reaches code n (operand (base + target) (base + n + 3))
operand-Reaches code base n target cut near back =
    (target, cut, operand-Targets base n target near back)

-- Two closed parts with a branch between them.
pub Closed-skip :
    (on_false : Bool) (is js : List Instr) (hi lo : ℕ)
    → (let whole = is ++ instr (branch on_false) (hi ∷ lo ∷ []) ∷ js in
        Closed is → Closed js → Reaches whole (bytes is) (hi ∷ lo ∷ []) → Closed whole)
unfolding encode_all
Closed-skip on_false is js hi lo h k reach =
    let args : List ℕ = hi ∷ lo ∷ [] in
    let i = instr (branch on_false) args in
    let whole = is ++ i ∷ js in
    AllLand-append whole 0 is (i ∷ js) (Closed-part [] is (i ∷ js) whole refl h) (
      AllLand-at whole (i ∷ js) {n = bytes is} (omega arith) (
        branch-Lands on_false whole (bytes is) args reach,
        AllLand-at whole js (bytes-append is (i ∷ []))
            (Closed-part (is ++ i ∷ []) js [] whole (simp (append_assoc, append-nil)) k),
      ))

-- Three closed parts, with a branch behind the first and a jump behind the second.
pub Closed-jumps :
    (on_false : Bool) (is js ks : List Instr) (hi lo hi' lo' : ℕ)
    → (let whole =
          is
          ++ instr (branch on_false) (hi ∷ lo ∷ [])
            ∷ (js ++ instr Opcode.jump (hi' ∷ lo' ∷ []) ∷ ks) in
        Closed is
        → Closed js
        → Closed ks
        → Reaches whole (bytes is) (hi ∷ lo ∷ [])
        → Reaches whole (bytes is + 3 + bytes js) (hi' ∷ lo' ∷ [])
        → Closed whole)
unfolding encode_all
Closed-jumps on_false is js ks hi lo hi' lo' h k l reach again =
    let i = instr (branch on_false) (hi ∷ lo ∷ []) in
    let j = instr Opcode.jump (hi' ∷ lo' ∷ []) in
    let rest = js ++ j ∷ ks in
    let whole = is ++ i ∷ rest in
    let till_js : bytes (is ++ i ∷ []) ≡ bytes is + 3 = bytes-append is (i ∷ []) in
    let till_ks : bytes ((is ++ i ∷ []) ++ (js ++ j ∷ [])) ≡ bytes is + 3 + bytes js + 3 =
      omega
        (arith, till_js, bytes-append js (j ∷ []), bytes-append (is ++ i ∷ []) (js ++ j ∷ [])) in
    AllLand-append whole 0 is (i ∷ rest) (Closed-part [] is (i ∷ rest) whole refl h) (
      AllLand-at whole (i ∷ rest) {n = bytes is} (omega arith) (
        branch-Lands on_false whole (bytes is) (hi ∷ lo ∷ []) reach,
        AllLand-append whole (bytes is + 3) js (j ∷ ks)
            (AllLand-at whole js till_js
              (Closed-part (is ++ i ∷ []) js (j ∷ ks) whole (simp append_assoc) k))
            (
              again,
              AllLand-at whole ks till_ks (
                  Closed-part ((is ++ i ∷ []) ++ (js ++ j ∷ [])) ks [] whole
                    (simp (append_assoc, append-nil)) l),
            ),
      ))
