-- ===== src/Tree/Synth.antt =====
-- Synthesis: `synthInScope` and `synthInlineInScope` of cmd/vm/Synth.cc. Each name is resolved in its scope,
-- each message gets its special kind, and each block its scope. A lookup may change the scopes around it, so
-- the scope is passed on from node to node. In a cascade the source shares the receiver, so
-- that each message synthesises that node again, and a loop among them (`whileTrue` and the like) marks a block
-- that is the receiver as inlined for the whole cascade; here each message has a receiver of its own.
use valutron.Prelude.{
  ℕ, suc, Bool, true, false, Option, none, some, List, [], ◌∷◌, length, if◌then◌else◌,
}
use valutron.Outcome.{Outcome, done, dies, ◌>>=◌, or_dies}
use valutron.CodeGen.{Name}
use valutron.Scope.{
  name_eq, CodeScope, empty_code_scope, Scope, method_scope, block_scope, Var, add_arg, add_local,
  lookup,
}
use valutron.Tree.Syntax.{
  Expr, Exprs, Messages, Stmts, no_exprs, more_exprs, no_messages, more_messages, no_stmts,
  expr_stmt, return_stmt, is_super,
}
use valutron.Tree.Nodes.{
  Special, Primitive, Node, Nodes, Sends, Steps, no_nodes, more_nodes, no_sends, more_sends,
  no_steps, expr_step, return_step,
}

-- The selectors that are compiled inline.
abbrev inline_selectors : List (Name × Special)
inline_selectors =
    (b'a' ∷ b'n' ∷ b'd' ∷ b':' ∷ [], Special.and)
    ∷ (
      b'i' ∷ b'f' ∷ b'T' ∷ b'r' ∷ b'u' ∷ b'e' ∷ b':' ∷ b'i' ∷ b'f' ∷ b'F' ∷ b'a' ∷ b'l' ∷ b's'
          ∷ b'e' ∷ b':' ∷ [],
      Special.if_true_if_false,
    )
    ∷ (
      b'i' ∷ b'f' ∷ b'F' ∷ b'a' ∷ b'l' ∷ b's' ∷ b'e' ∷ b':' ∷ b'i' ∷ b'f' ∷ b'T' ∷ b'r' ∷ b'u'
          ∷ b'e' ∷ b':' ∷ [],
      Special.if_false_if_true,
    )
    ∷ (b'i' ∷ b'f' ∷ b'T' ∷ b'r' ∷ b'u' ∷ b'e' ∷ b':' ∷ [], Special.if_true)
    ∷ (b'i' ∷ b'f' ∷ b'F' ∷ b'a' ∷ b'l' ∷ b's' ∷ b'e' ∷ b':' ∷ [], Special.if_false)
    ∷ (b'w' ∷ b'h' ∷ b'i' ∷ b'l' ∷ b'e' ∷ b'T' ∷ b'r' ∷ b'u' ∷ b'e' ∷ [], Special.while_true_0)
    ∷ (
      b'w' ∷ b'h' ∷ b'i' ∷ b'l' ∷ b'e' ∷ b'F' ∷ b'a' ∷ b'l' ∷ b's' ∷ b'e' ∷ [],
      Special.while_false_0,
    )
    ∷ (b'w' ∷ b'h' ∷ b'i' ∷ b'l' ∷ b'e' ∷ b'T' ∷ b'r' ∷ b'u' ∷ b'e' ∷ b':' ∷ [], Special.while_true)
    ∷ (
      b'w' ∷ b'h' ∷ b'i' ∷ b'l' ∷ b'e' ∷ b'F' ∷ b'a' ∷ b'l' ∷ b's' ∷ b'e' ∷ b':' ∷ [],
      Special.while_false,
    )
    ∷ []

-- `ObjectMemory::binOpStr`.
abbrev bin_op_str : List Name
bin_op_str =
    (b'+' ∷ [])
    ∷ (b'-' ∷ [])
    ∷ (b'<' ∷ [])
    ∷ (b'>' ∷ [])
    ∷ (b'<' ∷ b'=' ∷ [])
    ∷ (b'>' ∷ b'=' ∷ [])
    ∷ (b'=' ∷ [])
    ∷ (b'~' ∷ b'=' ∷ [])
    ∷ (b'*' ∷ [])
    ∷ (b'q' ∷ b'u' ∷ b'o' ∷ b':' ∷ [])
    ∷ (b'r' ∷ b'e' ∷ b'm' ∷ b':' ∷ [])
    ∷ (b'b' ∷ b'i' ∷ b't' ∷ b'A' ∷ b'n' ∷ b'd' ∷ b':' ∷ [])
    ∷ (b'b' ∷ b'i' ∷ b't' ∷ b'X' ∷ b'o' ∷ b'r' ∷ b':' ∷ [])
    ∷ []

unfoldable pub assoc : {A : Type 0} → Name → List (Name × A) → Option A
unfolding name_eq
assoc name [] = none
assoc name ((key, a) ∷ entries) = if name_eq name key then some a else assoc name entries

-- `isOptimisedBinop`, counting from `i`.
unfoldable pub optimised_binop : Name → List Name → ℕ → Option ℕ
unfolding name_eq
optimised_binop sel [] i = none
optimised_binop sel (op ∷ ops) i =
    if name_eq sel op then some i else optimised_binop sel ops (suc i)

-- The tests of `MessageExprNode::synthInScope` on the receiver and on the selector.
unfoldable pub special_kind : Bool → Name → Special
unfolding assoc optimised_binop
special_kind true selector = Special.normal
special_kind false selector = elim (assoc selector inline_selectors) [
  | some kind ↦ kind
  | none ↦ elim (optimised_binop selector bin_op_str 0) [
    | some i ↦ Special.bin_op i
    | none ↦ Special.normal
  ]
]

-- The arguments of a special message are synthesised inline, but not those of a binary operator; the
-- receiver is for a loop.
unfoldable pub inlines_args : Special → Bool
inlines_args Special.normal = false
inlines_args (Special.bin_op i) = false
inlines_args _ = true

unfoldable pub inlines_receiver : Special → Bool
inlines_receiver Special.while_true_0 = true
inlines_receiver Special.while_false_0 = true
inlines_receiver Special.while_true = true
inlines_receiver Special.while_false = true
inlines_receiver _ = false

unfoldable pub add_args : List Name → CodeScope → CodeScope
unfolding add_arg
add_args [] c = c
add_args (name ∷ names) c = add_args names (add_arg name c)

unfoldable pub add_locals : List Name → CodeScope → Option CodeScope
unfolding add_local
add_locals [] c = some c
add_locals (name ∷ names) c = elim (add_local name c) [
  | some c' ↦ add_locals names c'
  | none ↦ none
]

-- The scope of a new method or block: its arguments, then its locals.
unfoldable pub declare : List Name → List Name → Option CodeScope
unfolding add_args add_locals
declare args locals = add_locals locals (add_args args empty_code_scope)

-- Locals of an inlined block go to the scope around it.
unfoldable pub add_locals_to : List Name → Scope → Option Scope
unfolding add_locals
add_locals_to names (method_scope c ivars) = elim (add_locals names c) [
  | some c' ↦ some (method_scope c' ivars)
  | none ↦ none
]
add_locals_to names (block_scope c p) = elim (add_locals names c) [
  | some c' ↦ some (block_scope c' p)
  | none ↦ none
]

-- What a block leaves: its own scope as its statements made it, and the scope around it.
unfoldable pub leave_block : ℕ → Scope × Steps → Outcome (Scope × Node)
leave_block n_args (block_scope c p, steps) = done (p, Node.block c n_args steps)
leave_block n_args (method_scope c ivars, steps) = dies

-- `synth table inline e s`: `synthInlineInScope` if `inline`, which differs for a block only, and else
-- `synthInScope`. The table is that of `Primitive::named`.
unfoldable mutual
  unfolding assoc is_super special_kind inlines_args inlines_receiver declare add_locals_to
      leave_block lookup

  pub synth : List (Name × Primitive) → Bool → Expr → Scope → Outcome (Scope × Node)
  synth table inline (Expr.integer num) s = done (s, Node.integer num)
  synth table inline (Expr.character khar) s = done (s, Node.character khar)
  synth table inline (Expr.symbol sym) s = done (s, Node.symbol sym)
  synth table inline (Expr.string str) s = done (s, Node.string str)
  synth table inline Expr.float s = done (s, Node.float)
  synth table inline Expr.array s = done (s, Node.array)
  synth table inline (Expr.ident id) s = let (s, r) = lookup id s in done (s, Node.ident id r)
  synth table inline (Expr.assign left right) s = do
    let (s, r) = lookup left s
    (s, n) ← synth table false right s
    done (s, Node.assign left r n)
  synth table inline (Expr.message receiver selector args) s = do
    let kind = special_kind (is_super receiver) selector
    (s, r) ← synth table (inlines_receiver kind) receiver s
    (s, ns) ← synth_args table (inlines_args kind) args s
    done (s, Node.message kind r selector ns)
  synth table inline (Expr.cascade receiver messages) s = do
    (s, r) ← synth table false receiver s
    (s, ms) ← synth_messages table messages s
    done (s, Node.cascade r ms)
  synth table inline (Expr.primitive name args) s = do
    num ← or_dies (assoc name table)
    (s, ns) ← synth_args table false args s
    done (s, Node.primitive num ns)
  synth table false (Expr.block args locals stmts) s = do
    c ← or_dies (declare args locals)
    inner ← synth_stmts table stmts (block_scope c s)
    leave_block (length args) inner
  synth table true (Expr.block [] locals stmts) s = do
    s ← or_dies (add_locals_to locals s)
    (s, steps) ← synth_stmts table stmts s
    done (s, Node.inlined steps)
  synth table true (Expr.block (arg ∷ args) locals stmts) s = dies

  pub synth_args : List (Name × Primitive) → Bool → Exprs → Scope → Outcome (Scope × Nodes)
  synth_args table inline no_exprs s = done (s, no_nodes)
  synth_args table inline (more_exprs e es) s = do
    (s, n) ← synth table inline e s
    (s, ns) ← synth_args table inline es s
    done (s, more_nodes n ns)

  pub synth_messages : List (Name × Primitive) → Messages → Scope → Outcome (Scope × Sends)
  synth_messages table no_messages s = done (s, no_sends)
  synth_messages table (more_messages receiver selector args messages) s = do
    let kind = special_kind (is_super receiver) selector
    (s, r) ← synth table (inlines_receiver kind) receiver s
    (s, ns) ← synth_args table (inlines_args kind) args s
    (s, ms) ← synth_messages table messages s
    done (s, more_sends kind r selector ns ms)

  pub synth_stmts : List (Name × Primitive) → Stmts → Scope → Outcome (Scope × Steps)
  synth_stmts table no_stmts s = done (s, no_steps)
  synth_stmts table (expr_stmt e stmts) s = do
    (s, n) ← synth table false e s
    (s, steps) ← synth_stmts table stmts s
    done (s, expr_step n steps)
  synth_stmts table (return_stmt e stmts) s = do
    (s, n) ← synth table false e s
    (s, steps) ← synth_stmts table stmts s
    done (s, return_step n steps)

-- `MethodNode::synthInClassScope`: the method's final scope, and its statements.
unfoldable pub synth_method :
    List (Name × Primitive) → List Var → List Name → List Name → Stmts → Outcome (Scope × Steps)
unfolding declare synth_stmts
synth_method table ivars args locals stmts = do
  c ← or_dies (declare args locals)
  synth_stmts table stmts (method_scope c ivars)
