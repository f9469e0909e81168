-- ===== src/Compile/Programs.antt =====
-- `MethodNode::generate` and the `generateOn` methods of cmd/vm/AST.cc make programs of well-formed trees.
use valutron.Prelude.{
  ℕ, suc, ◌≡◌, refl, ap, Bool, true, false, Option, none, some, List, [], length,
}
use valutron.Outcome.{Outcome, done, dies, runs_on}
use valutron.CodeGen.{CodeGen, Name, RegisterId, Literal, gen_load_integer, gen_load_literal_object}
use valutron.Scope.{CodeScope}
use valutron.Generated.Calls.{Call, perform}
use valutron.Tree.Nodes.{
  Special, Node, Nodes, Sends, Steps, no_nodes, more_nodes, no_sends, more_sends, no_steps,
  expr_step, return_step, is_self, size,
}
use valutron.Compile.State.{State, Env, Compiled, on_gen}
use valutron.Compile.Leads.{Ends, Ends-bind, Leads, Leads-trans, AllPrograms, IsProgram}
use valutron.Compile.Emits.{
  Emits, EmitsIntoReg, EmitsWell, AllEmitWell, Ends-Leads, call-Emits, emit_and_star-EmitsIntoReg,
}
use valutron.Compile.Parts.{
  Takes, Asserts, message_on-Emits, MessageEmits, AllMessagesEmit, CascadeEmits, cascade_on-Emits,
}
use valutron.Compile.Primitives.{primitive_on-Emits}
use valutron.Compile.Idents.{
  Grows, Grows-same, GrowsReg, AllPromotable, generate_ident-Grows,
  generate_ident_into_reg-GrowsReg, generate_store-Grows,
}
use valutron.Compile.Vars.{generate_ident, generate_store}
use valutron.Compile.Messages.{message_on}
use valutron.Compile.WellFormed.{
  WellFormed, AllWellFormed, SendsWellFormed, StepsWellFormed, IsNormal, MayCascade, HasMessage,
  several, NotEmpty,
}
use valutron.Compile.Bodies.{
  StatementsLead, Statements-behind, Bodied, block_on-Emits, method_on-Bodied,
  return_on-StatementsLead,
}
use valutron.Compile.Generate.{
  return_on, is_super_node, first_byte, into_reg_of, emitter_of, env_of, Ending, ending_from,
  ending, emit, emit_args, emit_sends, emit_steps, generate_method,
}

grow : (f : CodeGen → CodeGen) → ((c : CodeGen) → Grows c (f c)) → Emits (λ st. done (on_gen f st))
unfolding on_gen
grow f h st = (h st.code_gen, λ programs. programs)

into_reg_of-EmitsIntoReg :
    (env : Env) (n : Node) (emit : State → Outcome State)
    → Emits emit
    → EmitsIntoReg (into_reg_of env n emit)
unfolding into_reg_of GrowsReg
into_reg_of-EmitsIntoReg env (Node.ident id r) emit h st =
    (generate_ident_into_reg-GrowsReg env id r st.code_gen, λ programs. programs)
into_reg_of-EmitsIntoReg env _ emit h st = emit_and_star-EmitsIntoReg emit h st

emitter_of-EmitsWell :
    (env : Env) (n : Node) (emit : State → Outcome State)
    → Emits emit
    → EmitsWell (emitter_of env n emit)
emitter_of-EmitsWell env n emit h = (h, into_reg_of-EmitsIntoReg env n emit h)

length-emit_args : (env : Env) (args : Nodes) → length (emit_args env args) ≡ size args
unfolding emit_args size
length-emit_args env no_nodes = refl
length-emit_args env (more_nodes n ns) = ap suc (length-emit_args env ns)

IsNormal-Asserts :
    (kind : Special) (is_super : Bool) (reg : RegisterId)
    → IsNormal kind
    → Asserts kind is_super (some reg)
IsNormal-Asserts Special.normal is_super reg h = tt
IsNormal-Asserts _ is_super reg h = elim h [ ]

-- Statements on code that statements have led to.
statements_trans :
    (end : Ending) (st st' st'' : State)
    → Leads st st'
    → StatementsLead end st' st''
    → StatementsLead end st st''
statements_trans end st st' st'' (grown, keeps) (h, keeps') = (
  Statements-behind end st.code_gen st'.code_gen st''.code_gen grown h,
  λ programs. keeps' (keeps programs),
)

forget : (end : Ending) (st st' : State) → StatementsLead end st st' → Leads st st'
forget end st st' ((is, h, ended), keeps) = ((is, h), keeps)

literal-Emits : (l : Literal) → Emits (λ st. done (on_gen (gen_load_literal_object l) st))
unfolding perform
literal-Emits l =
    call-Emits (Call.load_literal_object l) (gen_load_literal_object l) tt tt (λ c. refl)

-- A message to a node, over what its receiver and its arguments emit.
part-Emits :
    (env : Env) (kind : Special) (is_super : Bool) (receiver : Node) (selector : Name)
    (args : Nodes) (recv_reg : Option RegisterId)
    → Asserts kind is_super recv_reg
    → Takes kind (size args)
    → Emits (emit env receiver)
    → AllEmitWell (emit_args env args)
    → Emits (
        message_on kind is_super
          (emitter_of env receiver (emit env receiver))
          selector
          (emit_args env args)
          recv_reg)
part-Emits env kind is_super receiver selector args recv_reg asserts takes r h =
    message_on-Emits kind is_super (emitter_of env receiver (emit env receiver)) selector
      (emit_args env args) recv_reg asserts (rw (length-emit_args env args) takes)
      (emitter_of-EmitsWell env receiver (emit env receiver) r) h

-- The same of a message in a cascade.
send-MessageEmits :
    (env : Env) (more : Bool) (kind : Special) (is_super : Bool) (receiver : Node) (selector : Name)
    (args : Nodes)
    → MayCascade more is_super kind
    → Takes kind (size args)
    → Emits (emit env receiver)
    → AllEmitWell (emit_args env args)
    → MessageEmits more (
        message_on kind is_super
          (emitter_of env receiver (emit env receiver))
          selector
          (emit_args env args))
send-MessageEmits env true kind is_super receiver selector args may takes r h = λ reg.
    part-Emits env kind is_super receiver selector args (some reg)
      (IsNormal-Asserts kind is_super reg may) takes r h
send-MessageEmits env false kind is_super receiver selector args may takes r h =
    part-Emits env kind is_super receiver selector args none may takes r h

emit_sends-CascadeEmits :
    (env : Env) (is_super : Bool) (messages : Sends)
    → HasMessage messages
    → AllMessagesEmit (several messages) (emit_sends env is_super messages)
    → CascadeEmits (emit_sends env is_super messages)
unfolding emit_sends
emit_sends-CascadeEmits env is_super no_sends has h = elim has [ ]
emit_sends-CascadeEmits env is_super (more_sends _ _ _ _ no_sends) has h = h
emit_sends-CascadeEmits env is_super (more_sends _ _ _ _ (more_sends _ _ _ _ messages)) has h = h

-- Before the first statement.
begin : (st : State) → StatementsLead Ending.empty st st
begin st = ((_, (Grows-same st.code_gen).1, tt), λ programs. programs)

falling : (st st' : State) → Leads st st' → StatementsLead Ending.falls st st'
falling st st' ((is, h), keeps) = ((is, h, tt), keeps)

Ends-forget :
    (end : Ending) (st : State) (m : Outcome State)
    → Ends m (StatementsLead end st)
    → Ends m (Leads st)
Ends-forget end st (done st') h = forget end st st' h
Ends-forget end st dies h = h
Ends-forget end st runs_on h = h

Bodied-IsProgram :
    (m : Outcome (Compiled × List Compiled))
    → Ends m (Bodied [])
    → Ends m (λ p. IsProgram p.0.bytecode × AllPrograms p.1)
Bodied-IsProgram (done (meth, blocks)) (program, keeps) = (program, keeps tt)
Bodied-IsProgram dies h = h
Bodied-IsProgram runs_on h = h

mutual
  unfolding emit WellFormed perform

  pub emit-Emits : (env : Env) (n : Node) → WellFormed n → Emits (emit env n)
  emit-Emits env (Node.integer num) h =
      call-Emits (Call.load_integer num) (gen_load_integer num) tt tt (λ c. refl)
  emit-Emits env (Node.character khar) h = literal-Emits (Literal.character (first_byte khar))
  emit-Emits env (Node.symbol name) h = literal-Emits (Literal.symbol name)
  emit-Emits env (Node.string str) h = literal-Emits (Literal.string str)
  emit-Emits env Node.float h = literal-Emits Literal.no_object
  emit-Emits env Node.array h = literal-Emits Literal.no_object
  emit-Emits env (Node.ident id r) h =
      grow (generate_ident env id r) (generate_ident-Grows env id r)
  emit-Emits env (Node.assign left r right) h = λ st.
      Ends-Leads st (emit env right st) _ (emit-Emits env right h st)
        (grow (generate_store env left r) (generate_store-Grows env left r))
  emit-Emits env (Node.message kind receiver selector args) (asserts, takes, r, h) =
      part-Emits env kind (is_super_node receiver) receiver selector args none asserts takes
        (emit-Emits env receiver r) (emit_args-AllEmitWell env args h)
  emit-Emits env (Node.cascade receiver messages) (has, r, h) =
      cascade_on-Emits (emitter_of env receiver (emit env receiver))
        (emit_sends env (is_super_node receiver) messages)
        (emitter_of-EmitsWell env receiver (emit env receiver) (emit-Emits env receiver r))
        (emit_sends-CascadeEmits env (is_super_node receiver) messages has
          (emit_sends-AllMessagesEmit env (several messages) (is_super_node receiver) messages h))
  emit-Emits env (Node.primitive num args) h =
      primitive_on-Emits num (emit_args env args) (emit_args-AllEmitWell env args h.1)
        (rw (length-emit_args env args) h.0)
  emit-Emits env (Node.block scope n_args steps) h =
      block_on-Emits n_args scope (ending steps) (emit_steps (env_of scope) steps) h.0
        λ st. emit_steps-StatementsLead (env_of scope) steps Ending.empty st st (begin st) h.1
  emit-Emits env (Node.inlined steps) h = λ st.
      Ends-forget (ending steps) st (emit_steps env steps st)
        (emit_steps-StatementsLead env steps Ending.empty st st (begin st) h)

  emit_args-AllEmitWell :
      (env : Env) (args : Nodes) → AllWellFormed args → AllEmitWell (emit_args env args)
  emit_args-AllEmitWell env no_nodes h = tt
  emit_args-AllEmitWell env (more_nodes n ns) h = (
    emitter_of-EmitsWell env n (emit env n) (emit-Emits env n h.0),
    emit_args-AllEmitWell env ns h.1,
  )

  emit_sends-AllMessagesEmit :
      (env : Env) (more is_super : Bool) (messages : Sends)
      → SendsWellFormed more is_super messages
      → AllMessagesEmit more (emit_sends env is_super messages)
  emit_sends-AllMessagesEmit env more is_super no_sends h = tt
  emit_sends-AllMessagesEmit env more is_super (more_sends kind receiver selector args messages)
        (may, takes, r, h, hs) =
      (
        send-MessageEmits env more kind is_super receiver selector args may takes
            (emit-Emits env receiver r) (emit_args-AllEmitWell env args h),
        emit_sends-AllMessagesEmit env more is_super messages hs,
      )

  emit_steps-StatementsLead :
      (env : Env) (steps : Steps) (end : Ending) (st st' : State)
      → StatementsLead end st st'
      → StepsWellFormed steps
      → Ends (emit_steps env steps st') (StatementsLead (ending_from end steps) st)
  emit_steps-StatementsLead env no_steps end st st' l h = l
  emit_steps-StatementsLead env (expr_step n steps) end st st' l h =
      Ends-bind (Leads st') (StatementsLead (ending_from Ending.falls steps) st) (emit env n st') _
        (emit-Emits env n h.0 st')
        λ st'' l'.
          emit_steps-StatementsLead env steps Ending.falls st st''
            (falling st st'' (Leads-trans st st' st'' (forget end st st' l) l')) h.1
  emit_steps-StatementsLead env (return_step n steps) end st st' l h =
      Ends-bind (StatementsLead Ending.returns st')
        (StatementsLead (ending_from Ending.returns steps) st)
        (return_on (is_self n) (emit env n) st') _
        (return_on-StatementsLead (is_self n) (emit env n) (emit-Emits env n h.0) st')
        λ st'' l'.
          emit_steps-StatementsLead env steps Ending.returns st st''
            (statements_trans Ending.returns st st' st'' (forget end st st' l) l') h.1

-- `generate` ends with a method, and blocks, whose code is a program, if the tree of the method is
-- well-formed, has a statement, and its scope has promoted only locals and arguments.
pub generate_method-IsProgram :
    (n_args : ℕ) (scope : CodeScope) (steps : Steps)
    → AllPromotable scope.my_heap_vars
    → NotEmpty (ending steps)
    → StepsWellFormed steps
    → Ends (generate_method n_args scope steps) (λ p. IsProgram p.0.bytecode × AllPrograms p.1)
unfolding generate_method
generate_method-IsProgram n_args scope steps promotable n h = Bodied-IsProgram _ (
    method_on-Bodied n_args scope (ending steps) (emit_steps (env_of scope) steps) promotable n
      λ st. emit_steps-StatementsLead (env_of scope) steps Ending.empty st st (begin st) h)
