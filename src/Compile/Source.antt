-- ===== src/Compile/Source.antt =====
-- The trees of the parser that the compiler of cmd/vm can compile: the messages that it knows, and the
-- primitives, have the arguments that it reads, and a cascade of several messages has no special one.
use valutron.Prelude.{ℕ, suc, ◌≡◌, Bool, true, false, some, List}
use valutron.CodeGen.{Name}
use valutron.Tree.Syntax.{
  Expr, Exprs, Messages, Stmts, no_exprs, more_exprs, no_messages, more_messages, no_stmts,
  expr_stmt, return_stmt, is_super,
}
use valutron.Tree.Nodes.{Primitive}
use valutron.Tree.Synth.{assoc, special_kind}
use valutron.Compile.Parts.{Takes}
use valutron.Compile.Primitives.{PrimitiveTakes}
use valutron.Compile.WellFormed.{MayCascade}

unfoldable pub count : Exprs → ℕ
count no_exprs = 0
count (more_exprs e es) = suc (count es)

abbrev pub HasMessages : Messages → Type 0
HasMessages no_messages = ⊥
HasMessages _ = Unit

abbrev pub has_messages : Messages → Bool
has_messages no_messages = false
has_messages _ = true

abbrev pub many : Messages → Bool
many no_messages = false
many (more_messages receiver selector args messages) = has_messages messages

unfoldable mutual
  unfolding count special_kind is_super assoc

  pub CanCompile : List (Name × Primitive) → Expr → Type 0
  CanCompile table (Expr.assign left right) = CanCompile table right
  CanCompile table (Expr.message receiver selector args) =
      Takes (special_kind (is_super receiver) selector) (count args)
      × CanCompile table receiver
      × AllCanCompile table args
  CanCompile table (Expr.cascade receiver messages) =
      HasMessages messages
      × CanCompile table receiver
      × MessagesCanCompile table (many messages) (is_super receiver) messages
  CanCompile table (Expr.primitive name args) =
      ((num : Primitive)
        → assoc name table ≡ some num
        → PrimitiveTakes num.old_style num.kind (count args))
      × AllCanCompile table args
  CanCompile table (Expr.block args locals stmts) = StmtsCanCompile table stmts
  CanCompile table _ = Unit

  pub AllCanCompile : List (Name × Primitive) → Exprs → Type 0
  AllCanCompile table no_exprs = Unit
  AllCanCompile table (more_exprs e es) = CanCompile table e × AllCanCompile table es

  pub MessagesCanCompile : List (Name × Primitive) → Bool → Bool → Messages → Type 0
  MessagesCanCompile table more on_super no_messages = Unit
  MessagesCanCompile table more on_super (more_messages receiver selector args messages) =
      MayCascade more on_super (special_kind (is_super receiver) selector)
      × Takes (special_kind (is_super receiver) selector) (count args)
      × CanCompile table receiver
      × AllCanCompile table args
      × MessagesCanCompile table more on_super messages

  pub StmtsCanCompile : List (Name × Primitive) → Stmts → Type 0
  StmtsCanCompile table no_stmts = Unit
  StmtsCanCompile table (expr_stmt e stmts) = CanCompile table e × StmtsCanCompile table stmts
  StmtsCanCompile table (return_stmt e stmts) = CanCompile table e × StmtsCanCompile table stmts

abbrev pub HasStatement : Stmts → Type 0
HasStatement no_stmts = ⊥
HasStatement _ = Unit
