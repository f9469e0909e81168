-- ===== src/Tree/Nodes.antt =====
-- The tree after synthesis. An identifier carries what it was resolved to, a message its special kind, a
-- block its scope or the mark that it is inlined.
use valutron.Prelude.{ℕ, suc, Bool, false}
use valutron.Prelude.Int.{ℤ}
use valutron.CodeGen.{Name}
use valutron.Scope.{name_eq, Resolved, CodeScope}
use valutron.Tree.Syntax.{self}

-- `MessageExprNode::SpecialKind`, without `kOr`, which is never set. A binary operator has its index.
pub data Special : Type 0 where
  normal if_true_if_false if_false_if_true if_true if_false and : Special
  while_true_0 while_false_0 while_true while_false : Special
  bin_op : ℕ → Special

-- An entry of the table of primitives.
pub data Kind : Type 0 where
  niladic monadic diadic triadic variadic : Kind

pub record Primitive : Type 0 where
  pub name : Name
  pub old_style : Bool
  pub kind : Kind
  pub index : ℕ

mutual
  pub data Node : Type 0 where
    integer : ℤ → Node
    character : Name → Node
    symbol : Name → Node
    string : Name → Node
    float : Node
    array : Node
    ident : Name → Resolved → Node
    assign : Name → Resolved → Node → Node
    message : Special → Node → Name → Nodes → Node
    cascade : Node → Sends → Node
    primitive : Primitive → Nodes → Node
    block : CodeScope → ℕ → Steps → Node
    inlined : Steps → Node

  pub data Nodes : Type 0 where
    no_nodes : Nodes
    more_nodes : Node → Nodes → Nodes

  pub data Sends : Type 0 where
    no_sends : Sends
    more_sends : Special → Node → Name → Nodes → Sends → Sends

  pub data Steps : Type 0 where
    no_steps : Steps
    expr_step : Node → Steps → Steps
    return_step : Node → Steps → Steps

unfoldable pub size : Nodes → ℕ
size no_nodes = 0
size (more_nodes n ns) = suc (size ns)

-- `isSelf`: an inlined block is self if its only statement is.
unfoldable mutual
  pub is_self : Node → Bool
  is_self (Node.ident id r) = name_eq id self
  is_self (Node.inlined steps) = is_self_stmt steps
  is_self _ = false

  pub is_self_stmt : Steps → Bool
  is_self_stmt (expr_step e no_steps) = is_self e
  is_self_stmt _ = false
