-- ===== src/Compile/Leads.antt =====
-- What a piece of the code generation of cmd/vm/AST.cc leaves behind: whole instructions, whose jumps stay
-- among them.
use mathlib.Core.List.{append_assoc, append-nil}
use valutron.Prelude.{ℕ, ap, ◌^◌, ◌<◌, ◌≡◌, ◌∙◌, true, false, List, [], ◌∷◌, ◌++◌, length, arith}
use valutron.Outcome.{Outcome, done, dies, runs_on, ◌>>=◌}
use valutron.Bytecode.{Opcode}
use valutron.Bytecode.Instruction.{Instr, AllInstr, AllInstr-append, encode_all, encode_all-append}
use valutron.CodeGen.{CodeGen}
use valutron.Generated.Calls.{Call, perform, meaning, instr}
use valutron.Generated.Emit.{Appends, perform-Appends, IsCountable, meaning-AllInstr}
use valutron.Compile.Landing.{bytes, bytes-append, Closed, Closed-append}
use valutron.Compile.State.{Compiled, State}

-- The computation ends, with a result of which `P` holds.
abbrev pub Ends : {A : Type 0} → Outcome A → (A → Type 0) → Type 0
Ends (done a) P = P a
Ends dies P = ⊥
Ends runs_on P = ⊥

pub Ends-bind :
    {A B : Type 0} (P : A → Type 0) (Q : B → Type 0) (m : Outcome A) (f : A → Outcome B)
    → Ends m P
    → ((a : A) → P a → Ends (f a) Q)
    → Ends (m >>= f) Q
Ends-bind P Q (done a) f h k = k a h
Ends-bind P Q dies f h k = elim h [ ]
Ends-bind P Q runs_on f h k = elim h [ ]

-- The code has got these whole instructions, and if they are short enough for a jump then each of their
-- jumps lands on one of them or behind them.
abbrev pub Emitted : CodeGen → CodeGen → List Instr → Type 0
Emitted c d is = Appends c d is × AllInstr is × (bytes is < 2 ^ 15 → Closed is)

pub Emitted-trans :
    (c d e : CodeGen) (is js : List Instr)
    → Emitted c d is
    → Emitted d e js
    → Emitted c e (is ++ js)
Emitted-trans c d e is js (code, whole, closed) (code', whole', closed') = (
  simp (code', code, encode_all-append is js, append_assoc),
  AllInstr-append is js whole whole',
  λ short.
      Closed-append is js (closed (omega (arith, bytes-append is js)))
        (closed' (omega (arith, bytes-append is js))),
)

abbrev pub IsReturn : Opcode → Type 0
IsReturn Opcode.return = Unit
IsReturn Opcode.return_self = Unit
IsReturn Opcode.block_return = Unit
IsReturn _ = ⊥

abbrev pub EndsInReturn : List Instr → Type 0
EndsInReturn is = (js : List Instr) × (op : Opcode) × IsReturn op × (is ≡ js ++ instr op [] ∷ [])

-- The code of a method or of a block.
abbrev pub IsProgram : List ℕ → Type 0
IsProgram code =
    (is : List Instr) × (code ≡ encode_all is)
    × AllInstr is
    × (length code < 2 ^ 15 → Closed is)
    × EndsInReturn is

abbrev pub AllPrograms : List Compiled → Type 0
AllPrograms [] = Unit
AllPrograms (b ∷ bs) = IsProgram b.bytecode × AllPrograms bs

pub AllPrograms-append :
    (bs : List Compiled) (b : Compiled)
    → AllPrograms bs
    → IsProgram b.bytecode
    → AllPrograms (bs ++ b ∷ [])
AllPrograms-append [] b h k = (k, tt)
AllPrograms-append (a ∷ bs) b h k = (h.0, AllPrograms-append bs b h.1 k)

abbrev pub KeepsBlocks : State → State → Type 0
KeepsBlocks st st' = AllPrograms st.blocks → AllPrograms st'.blocks

-- The code grows by some instructions, and any further block is a program too.
abbrev pub Leads : State → State → Type 0
Leads st st' = ((is : List Instr) × Emitted st.code_gen st'.code_gen is) × KeepsBlocks st st'

pub Leads-same :
    (st st' : State)
    → st'.code_gen.bytecode ≡ st.code_gen.bytecode
    → st'.blocks ≡ st.blocks
    → Leads st st'
unfolding encode_all
Leads-same st st' same blocks =
    (([], (simp (same, append-nil), tt, λ short. tt)), λ programs. rw blocks programs)

pub Leads-trans : (st st' st'' : State) → Leads st st' → Leads st' st'' → Leads st st''
Leads-trans st st' st'' ((is, h), keeps) ((js, k), keeps') = (
  (is ++ js, Emitted-trans st.code_gen st'.code_gen st''.code_gen is js h k),
  λ programs. keeps' (keeps programs),
)

-- A call that leaves no open jump.
abbrev pub IsPlain : Call → Type 0
IsPlain Call.jump = ⊥
IsPlain Call.branch_if_false = ⊥
IsPlain Call.branch_if_true = ⊥
IsPlain _ = Unit

meaning-Closed : (call : Call) (c : CodeGen) → IsPlain call → Closed (meaning call c)
unfolding meaning
meaning-Closed Call.jump c h = elim h [ ]
meaning-Closed Call.branch_if_false c h = elim h [ ]
meaning-Closed Call.branch_if_true c h = elim h [ ]
meaning-Closed (Call.message true selector args) c h = (tt, tt)
meaning-Closed (Call.message false selector args) c h = (tt, tt)
meaning-Closed _ c h = ground arith

pub call-Leads :
    (call : Call) (st st' : State)
    → IsCountable call
    → IsPlain call
    → st'.code_gen ≡ perform call st.code_gen
    → st'.blocks ≡ st.blocks
    → Leads st st'
call-Leads call st st' count plain called blocks = (
  (
    meaning call st.code_gen,
    (
      ap (λ (c : CodeGen). c.bytecode) called ∙ perform-Appends call st.code_gen,
      meaning-AllInstr call st.code_gen count,
      λ short. meaning-Closed call st.code_gen plain,
    ),
  ),
  λ programs. rw blocks programs,
)
