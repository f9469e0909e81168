-- ===== src/Compile/Bodies.antt =====
-- The code of methods and blocks of cmd/vm/AST.cc: around statements that emit whole instructions whose jumps
-- stay among them, it is a program, which ends in a return.
use mathlib.Core.List.{append_assoc}
use valutron.Prelude.{ℕ, ◌≡◌, refl, Bool, true, false, List, [], ◌∷◌, ◌++◌, length, if◌then◌else◌}
use valutron.Outcome.{Outcome, done, ◌>>=◌}
use valutron.Bytecode.{Opcode}
use valutron.Bytecode.Instruction.{Instr, arity, encode_all}
use valutron.CodeGen.{
  CodeGen, new_code_gen, gen_return, gen_return_self, gen_block_return, gen_load_nil,
}
use valutron.Scope.{CodeScope}
use valutron.Generated.Calls.{Call, perform, meaning, instr}
use valutron.Generated.Emit.{perform-Appends}
use valutron.Compile.State.{Compiled, State, on_gen}
use valutron.Compile.Leads.{
  Ends, Ends-bind, Emitted, Emitted-trans, EndsInReturn, IsReturn, IsProgram, AllPrograms,
  AllPrograms-append, KeepsBlocks, Leads,
}
use valutron.Compile.Emits.{Emits}
use valutron.Compile.Idents.{
  Grows, Grows-trans, Grows-same, call-Grows, generate_restores-Grows, generate_promotes-Grows,
  AllPromotable,
}
use valutron.Compile.Vars.{generate_promotes, generate_restores}
use valutron.Compile.Generate.{
  Ending, return_on, close_block, close_method, compiled, body_on, block_on,
}
use valutron.Compile.WellFormed.{NotEmpty}

-- What is known of code behind statements that end like that.
abbrev pub Ended : Ending → List Instr → Type 0
Ended Ending.returns is = EndsInReturn is
Ended _ is = Unit

abbrev pub Statements : Ending → CodeGen → CodeGen → Type 0
Statements end c d = (is : List Instr) × Emitted c d is × Ended end is

-- A return behind code that grows.
return-Grows :
    (c d : CodeGen) (call : Call) (op : Opcode)
    → IsReturn op
    → Emitted d (perform call d) (instr op [] ∷ [])
    → Grows c d
    → Statements Ending.returns c (perform call d)
return-Grows c d call op r e (is, h) = (
  is ++ instr op [] ∷ [],
  Emitted-trans c d (perform call d) is (instr op [] ∷ []) h e,
  (is, op, r, refl),
)

pub gen_return-Statements : (c d : CodeGen) → Grows c d → Statements Ending.returns c (gen_return d)
unfolding perform meaning arity
gen_return-Statements c d =
    return-Grows c d Call.return Opcode.return tt
      (perform-Appends Call.return d, (tt, tt), λ short. (tt, tt))

pub gen_return_self-Statements :
    (c d : CodeGen) → Grows c d → Statements Ending.returns c (gen_return_self d)
unfolding perform meaning arity
gen_return_self-Statements c d =
    return-Grows c d Call.return_self Opcode.return_self tt
      (perform-Appends Call.return_self d, (tt, tt), λ short. (tt, tt))

pub gen_block_return-Statements :
    (c d : CodeGen) → Grows c d → Statements Ending.returns c (gen_block_return d)
unfolding perform meaning arity
gen_block_return-Statements c d =
    return-Grows c d Call.block_return Opcode.block_return tt
      (perform-Appends Call.block_return d, (tt, tt), λ short. (tt, tt))

Statements-Grows : (end : Ending) (c d : CodeGen) → Statements end c d → Grows c d
Statements-Grows end c d (is, h, ended) = (is, h)

close_block-Statements :
    (end : Ending) (scope : CodeScope) (c d : CodeGen)
    → Statements end c d
    → Statements Ending.returns c (close_block end scope d)
unfolding close_block perform
close_block-Statements Ending.empty scope c d h =
    let restored = generate_restores scope.my_heap_vars d in
    let grown =
      Grows-trans c d restored (Statements-Grows Ending.empty c d h)
        (generate_restores-Grows scope.my_heap_vars d) in
    gen_return-Statements c (gen_load_nil restored) (
      Grows-trans c restored (gen_load_nil restored) grown
        (call-Grows Call.load_nil restored tt tt))
close_block-Statements Ending.falls scope c d h =
    let restored = generate_restores scope.my_heap_vars d in
    gen_return-Statements c restored (
      Grows-trans c d restored (Statements-Grows Ending.falls c d h)
        (generate_restores-Grows scope.my_heap_vars d))
close_block-Statements Ending.returns scope c d h = h

close_method-Statements :
    (end : Ending) (c d : CodeGen)
    → NotEmpty end
    → Statements end c d
    → Statements Ending.returns c (close_method end d)
unfolding close_method
close_method-Statements Ending.empty c d n h = elim n [ ]
close_method-Statements Ending.falls c d n h =
    gen_return_self-Statements c d (Statements-Grows Ending.falls c d h)
close_method-Statements Ending.returns c d n h = h

Ended-append : (end : Ending) (is js : List Instr) → Ended end js → Ended end (is ++ js)
Ended-append Ending.returns is js (before, op, r, e) = (is ++ before, op, r, simp (e, append_assoc))
Ended-append Ending.empty is js h = tt
Ended-append Ending.falls is js h = tt

pub Statements-behind :
    (end : Ending) (c d e : CodeGen) → Grows c d → Statements end d e → Statements end c e
Statements-behind end c d e (is, h) (js, k, ended) =
    (is ++ js, Emitted-trans c d e is js h k, Ended-append end is js ended)

-- Code that begins with nothing and ends with a return is a program.
Statements-IsProgram :
    (c d : CodeGen) → c.bytecode ≡ [] → Statements Ending.returns c d → IsProgram d.bytecode
Statements-IsProgram c d start (is, (code, all, closed), ended) =
    let whole : d.bytecode ≡ encode_all is = simp (code, start) in
    (is, whole, all, λ short. closed (rw whole at short), ended)

-- What is known behind the statements of a method or block that begins in a state.
abbrev pub StatementsLead : Ending → State → State → Type 0
StatementsLead end st st' = Statements end st.code_gen st'.code_gen × KeepsBlocks st st'

-- What a method or block leaves behind, next to the other blocks.
abbrev pub Bodied : List Compiled → Compiled × List Compiled → Type 0
Bodied blocks (b, blocks') = IsProgram b.bytecode × (AllPrograms blocks → AllPrograms blocks')

pub body_on-Bodied :
    (n_args : ℕ) (scope : CodeScope) (is_block : Bool) (emit : State → Outcome State) (end : Ending)
    (close : CodeGen → CodeGen) (blocks : List Compiled)
    → AllPromotable scope.my_heap_vars
    → ((st : State) → Ends (emit st) (StatementsLead end st))
    → ((c d : CodeGen) → Statements end c d → Statements Ending.returns c (close d))
    → Ends (body_on n_args scope is_block emit close blocks) (Bodied blocks)
unfolding body_on compiled new_code_gen
body_on-Bodied n_args scope is_block emit end close blocks promotable emits closes =
    let c = new_code_gen n_args (length scope.locals) is_block in
    Ends-bind (Grows c) (Bodied blocks) (generate_promotes scope.my_heap_vars c) _
      (generate_promotes-Grows scope.my_heap_vars c c (Grows-same c) promotable)
      λ d grown.
        let st : State = record { code_gen = d; blocks = blocks } in
        Ends-bind (StatementsLead end st) (Bodied blocks) (emit st) _ (emits st) λ st' (h, keeps). (
          Statements-IsProgram c (close st'.code_gen) refl
              (closes c st'.code_gen (Statements-behind end c d st'.code_gen grown h)),
          keeps,
        )

-- `block_on`, with the block among the others and its copy loaded.
pub block_on-Emits :
    (n_args : ℕ) (scope : CodeScope) (end : Ending) (emit : State → Outcome State)
    → AllPromotable scope.my_heap_vars
    → ((st : State) → Ends (emit st) (StatementsLead end st))
    → Emits (block_on n_args scope end emit)
unfolding block_on perform
block_on-Emits n_args scope end emit promotable emits st =
    Ends-bind (Bodied st.blocks) (Leads st)
      (body_on n_args scope true emit (close_block end scope) st.blocks) _
      (body_on-Bodied n_args scope true emit end (close_block end scope) st.blocks promotable emits
        (close_block-Statements end scope))
      λ (b, blocks) (program, keeps). (
        call-Grows (Call.load_block_copy (length blocks)) st.code_gen tt tt,
        λ programs. AllPrograms-append blocks b (keeps programs) program,
      )

pub method_on-Bodied :
    (n_args : ℕ) (scope : CodeScope) (end : Ending) (emit : State → Outcome State)
    → AllPromotable scope.my_heap_vars
    → NotEmpty end
    → ((st : State) → Ends (emit st) (StatementsLead end st))
    → Ends (body_on n_args scope false emit (close_method end) []) (Bodied [])
method_on-Bodied n_args scope end emit promotable n emits =
    body_on-Bodied n_args scope false emit end (close_method end) [] promotable emits
      λ c d. close_method-Statements end c d n

-- The return of a block or of a method.
returning :
    (st : State) (emit : State → Outcome State) (return : CodeGen → CodeGen)
    → Emits emit
    → ((c d : CodeGen) → Grows c d → Statements Ending.returns c (return d))
    → Ends (emit st >>= λ st. done (on_gen return st)) (StatementsLead Ending.returns st)
unfolding on_gen
returning st emit return h returns =
    Ends-bind (Leads st) (StatementsLead Ending.returns st) (emit st) _ (h st)
      λ st' (grown, keeps). (returns st.code_gen st'.code_gen grown, keeps)

return_by :
    (is_block expr_is_self : Bool) (st : State) (emit : State → Outcome State)
    → Emits emit
    → Ends
        (if is_block
          then (emit st >>= λ st. done (on_gen gen_block_return st))
          else if expr_is_self
          then done (on_gen gen_return_self st)
          else (emit st >>= λ st. done (on_gen gen_return st)))
        (StatementsLead Ending.returns st)
unfolding on_gen
return_by true expr_is_self st emit h =
    returning st emit gen_block_return h gen_block_return-Statements
return_by false true st emit h = (
  gen_return_self-Statements st.code_gen st.code_gen (Grows-same st.code_gen),
  λ programs. programs,
)
return_by false false st emit h = returning st emit gen_return h gen_return-Statements

pub return_on-StatementsLead :
    (expr_is_self : Bool) (emit : State → Outcome State)
    → Emits emit
    → (st : State) → Ends (return_on expr_is_self emit st) (StatementsLead Ending.returns st)
unfolding return_on
return_on-StatementsLead expr_is_self emit h st =
    return_by st.code_gen.is_block expr_is_self st emit h
