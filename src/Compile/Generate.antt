-- ===== src/Compile/Generate.antt =====
-- Expressions, blocks, statements and methods: the other `generateOn` methods of cmd/vm/AST.cc.
use valutron.Prelude.{
  ℕ, Bool, true, false, Option, none, List, [], ◌∷◌, ◌++◌, length, if◌then◌else◌,
}
use valutron.Outcome.{Outcome, done, ◌>>=◌}
use valutron.CodeGen.{
  CodeGen, Literal, Name, RegisterId, new_code_gen, n_regs, gen_load_integer,
  gen_load_literal_object, gen_load_block_copy, gen_load_nil, gen_return, gen_return_self,
  gen_block_return,
}
use valutron.Scope.{name_eq, CodeScope}
use valutron.Tree.Syntax.{super}
use valutron.Tree.Nodes.{
  Node, Nodes, Sends, Steps, no_nodes, more_nodes, no_sends, more_sends, no_steps, expr_step,
  return_step, is_self,
}
use valutron.Compile.State.{Compiled, State, Env, Emitter, on_gen, emit_and_star}
use valutron.Compile.Vars.{
  generate_ident, generate_ident_into_reg, generate_store, generate_promotes, moved_by,
  generate_restores,
}
use valutron.Compile.Messages.{message_on, cascade_on, primitive_on}

unfoldable pub is_super_node : Node → Bool
unfolding name_eq
is_super_node (Node.ident id r) = name_eq id super
is_super_node _ = false

-- The first byte of a `std::string`, which ends in a 0.
unfoldable pub first_byte : Name → ℕ
first_byte [] = 0
first_byte (c ∷ cs) = c

-- `generateIntoReg`, which differs for an identifier, over what the node emits.
unfoldable pub into_reg_of :
    Env → Node → (State → Outcome State) → State → Outcome (State × RegisterId)
unfolding generate_ident_into_reg emit_and_star
into_reg_of env (Node.ident id r) emit st =
    let (c, reg) = generate_ident_into_reg env id r st.code_gen in
    done (record st { code_gen = c }, reg)
into_reg_of env _ emit st = emit_and_star emit st

abbrev pub emitter_of : Env → Node → (State → Outcome State) → Emitter
emitter_of env n emit = record { emit = emit; into_reg = into_reg_of env n emit }

unfoldable pub env_of : CodeScope → Env
unfolding moved_by
env_of scope = record { scope = scope; moved = moved_by scope.my_heap_vars [] }

-- `ReturnStmtNode::generateOn`, over what its expression emits.
unfoldable pub return_on : Bool → (State → Outcome State) → State → Outcome State
unfolding on_gen gen_block_return gen_return_self gen_return
return_on expr_is_self emit st =
    if st.code_gen.is_block
    then (do st ← emit st; done (on_gen gen_block_return st))
    else if expr_is_self
    then done (on_gen gen_return_self st)
    else (do st ← emit st; done (on_gen gen_return st))

-- How the statements of a block or of a method end.
pub data Ending : Type 0 where
  empty falls returns : Ending

-- The ending of statements behind code that has ended like that.
unfoldable pub ending_from : Ending → Steps → Ending
ending_from end no_steps = end
ending_from end (expr_step n steps) = ending_from Ending.falls steps
ending_from end (return_step n steps) = ending_from Ending.returns steps

unfoldable pub ending : Steps → Ending
unfolding ending_from
ending steps = ending_from Ending.empty steps

-- What `BlockExprNode::generateOn` puts behind the statements.
unfoldable pub close_block : Ending → CodeScope → CodeGen → CodeGen
unfolding generate_restores gen_return gen_load_nil
close_block Ending.empty scope c =
    gen_return (gen_load_nil (generate_restores scope.my_heap_vars c))
close_block Ending.falls scope c = gen_return (generate_restores scope.my_heap_vars c)
close_block Ending.returns scope c = c

-- What `MethodNode::generate` puts behind them.
unfoldable pub close_method : Ending → CodeGen → CodeGen
unfolding gen_return_self
close_method Ending.falls c = gen_return_self c
close_method _ c = c

unfoldable pub compiled : ℕ → CodeScope → CodeGen → Compiled
unfolding n_regs
compiled n_args scope c = record {
  bytecode = c.bytecode;
  literals = c.literals;
  argument_count = n_args;
  temporary_size = length scope.locals;
  heap_vars_size = length scope.my_heap_vars;
  stack_size = n_regs c;
}

-- The code of a method or of a block, with a generator of its own: the promotions, the statements, and what
-- `close` puts behind them.
unfoldable pub body_on :
    ℕ
    → CodeScope
    → Bool
    → (State → Outcome State)
    → (CodeGen → CodeGen)
    → List Compiled
    → Outcome (Compiled × List Compiled)
unfolding new_code_gen generate_promotes compiled
body_on n_args scope is_block emit close blocks = do
  c ← generate_promotes scope.my_heap_vars (new_code_gen n_args (length scope.locals) is_block)
  st ← emit (record { code_gen = c; blocks = blocks })
  done (compiled n_args scope (close st.code_gen), st.blocks)

-- `BlockExprNode::generateOn` for a block that is not inlined.
unfoldable pub block_on : ℕ → CodeScope → Ending → (State → Outcome State) → State → Outcome State
unfolding body_on close_block gen_load_block_copy
block_on n_args scope end emit st = do
  (block, blocks) ← body_on n_args scope true emit (close_block end scope) st.blocks
  done (record {
    code_gen = gen_load_block_copy (length blocks) st.code_gen;
    blocks = blocks ++ block ∷ [];
  })

unfoldable mutual
  unfolding on_gen gen_load_integer gen_load_literal_object first_byte generate_ident generate_store
      into_reg_of is_super_node env_of ending block_on return_on is_self message_on cascade_on
      primitive_on

  pub emit : Env → Node → State → Outcome State
  emit env (Node.integer num) st = done (on_gen (gen_load_integer num) st)
  emit env (Node.character khar) st =
      done (on_gen (gen_load_literal_object (Literal.character (first_byte khar))) st)
  emit env (Node.symbol sym) st = done (on_gen (gen_load_literal_object (Literal.symbol sym)) st)
  emit env (Node.string str) st = done (on_gen (gen_load_literal_object (Literal.string str)) st)
  emit env Node.float st = done (on_gen (gen_load_literal_object Literal.no_object) st)
  emit env Node.array st = done (on_gen (gen_load_literal_object Literal.no_object) st)
  emit env (Node.ident id r) st = done (on_gen (generate_ident env id r) st)
  emit env (Node.assign left r right) st = do
    st ← emit env right st
    done (on_gen (generate_store env left r) st)
  emit env (Node.message kind receiver selector args) st =
      message_on kind (is_super_node receiver) (emitter_of env receiver (emit env receiver))
        selector (emit_args env args) none st
  emit env (Node.cascade receiver messages) st =
      cascade_on (emitter_of env receiver (emit env receiver))
        (emit_sends env (is_super_node receiver) messages) st
  emit env (Node.primitive num args) st = primitive_on num (emit_args env args) st
  emit env (Node.block scope n_args steps) st =
      block_on n_args scope (ending steps) (emit_steps (env_of scope) steps) st
  emit env (Node.inlined steps) st = emit_steps env steps st

  pub emit_args : Env → Nodes → List Emitter
  emit_args env no_nodes = []
  emit_args env (more_nodes n ns) = emitter_of env n (emit env n) ∷ emit_args env ns

  pub emit_sends : Env → Bool → Sends → List (Option RegisterId → State → Outcome State)
  emit_sends env is_super no_sends = []
  emit_sends env is_super (more_sends kind receiver selector args messages) =
      message_on kind is_super (emitter_of env receiver (emit env receiver)) selector
        (emit_args env args)
      ∷ emit_sends env is_super messages

  pub emit_steps : Env → Steps → State → Outcome State
  emit_steps env no_steps st = done st
  emit_steps env (expr_step n steps) st = do st ← emit env n st; emit_steps env steps st
  emit_steps env (return_step n steps) st = do
    st ← return_on (is_self n) (emit env n) st
    emit_steps env steps st

-- `MethodNode::generate`: the method, and the blocks of its code.
unfoldable pub generate_method : ℕ → CodeScope → Steps → Outcome (Compiled × List Compiled)
unfolding body_on close_method ending env_of emit_steps
generate_method n_args scope steps =
    body_on n_args scope false (emit_steps (env_of scope) steps) (close_method (ending steps)) []
