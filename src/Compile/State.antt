-- ===== src/Compile/State.antt =====
-- What the generation of code from the tree (cmd/vm/AST.cc) works on: the generator of the method or block at
-- hand, and the blocks compiled so far.
use valutron.Prelude.{ℕ, List}
use valutron.Outcome.{Outcome, done, ◌>>=◌}
use valutron.CodeGen.{CodeGen, Literal, RegisterId, gen_star}
use valutron.Scope.{CodeScope}

-- A method or block object, as it is filled in.
pub record Compiled : Type 0 where
  pub bytecode : List ℕ
  pub literals : List Literal
  pub argument_count : ℕ
  pub temporary_size : ℕ
  pub heap_vars_size : ℕ
  pub stack_size : ℕ

-- A block object is named by its place among the blocks.
pub record State : Type 0 where
  pub code_gen : CodeGen
  pub blocks : List Compiled

-- `gen.scope()`, and its `parentHeapVarToMyHeapVar`, which is filled before the first statement.
pub record Env : Type 0 where
  pub scope : CodeScope
  pub moved : List (ℕ × ℕ)

-- The virtual methods `generateOn` and `generateIntoReg` of a node.
pub record Emitter : Type 0 where
  pub emit : State → Outcome State
  pub into_reg : State → Outcome (State × RegisterId)

unfoldable pub on_gen : (CodeGen → CodeGen) → State → State
on_gen f st = record st { code_gen = f st.code_gen }

unfoldable pub push_star : State → State × RegisterId
unfolding gen_star
push_star st = let (c, reg) = gen_star st.code_gen in (record st { code_gen = c }, reg)

-- `ExprNode::generateIntoReg`.
unfoldable pub emit_and_star : (State → Outcome State) → State → Outcome (State × RegisterId)
unfolding push_star
emit_and_star emit st = do st ← emit st; done (push_star st)
