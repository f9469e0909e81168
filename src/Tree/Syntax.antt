-- ===== src/Tree/Syntax.antt =====
-- The tree that the parser makes: the expression and statement nodes of cmd/vm/AST.hh, without positions and
-- types. An integer is one of an `int`. Each message of a cascade holds a copy of the receiver; the source shares one
-- node, see Synth.
use valutron.Prelude.{Bool, false, List, [], ◌∷◌}
use valutron.Prelude.Int.{ℤ}
use valutron.CodeGen.{Name}
use valutron.Scope.{name_eq}

mutual
  pub data Expr : Type 0 where
    integer : ℤ → Expr
    character : Name → Expr
    symbol : Name → Expr
    string : Name → Expr
    float : Expr
    array : Expr
    ident : Name → Expr
    assign : Name → Expr → Expr
    message : Expr → Name → Exprs → Expr
    cascade : Expr → Messages → Expr
    primitive : Name → Exprs → Expr
    block : List Name → List Name → Stmts → Expr

  pub data Exprs : Type 0 where
    no_exprs : Exprs
    more_exprs : Expr → Exprs → Exprs

  pub data Messages : Type 0 where
    no_messages : Messages
    more_messages : Expr → Name → Exprs → Messages → Messages

  pub data Stmts : Type 0 where
    no_stmts : Stmts
    expr_stmt : Expr → Stmts → Stmts
    return_stmt : Expr → Stmts → Stmts

-- The names that the compiler knows.
abbrev pub super : Name
super = b's' ∷ b'u' ∷ b'p' ∷ b'e' ∷ b'r' ∷ []

abbrev pub self : Name
self = b's' ∷ b'e' ∷ b'l' ∷ b'f' ∷ []

unfoldable pub is_super : Expr → Bool
unfolding name_eq
is_super (Expr.ident id) = name_eq id super
is_super _ = false
