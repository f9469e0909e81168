-- ===== src/Compile/WellFormed.antt =====
-- The trees of which cmd/vm/AST.cc asserts nothing that fails: the arguments of special messages and of
-- primitives are there, and a cascade of several messages has no special one.
use valutron.Prelude.{Bool, true, false, none}
use valutron.Tree.Nodes.{
  Special, Node, Nodes, Sends, Steps, no_nodes, more_nodes, no_sends, more_sends, no_steps,
  expr_step, return_step, size,
}
use valutron.Compile.Idents.{AllPromotable}
use valutron.Compile.Parts.{Takes, Asserts}
use valutron.Compile.Primitives.{PrimitiveTakes}
use valutron.Compile.Generate.{is_super_node, Ending}

abbrev pub IsNormal : Special → Type 0
IsNormal Special.normal = Unit
IsNormal _ = ⊥

-- A message of a cascade, which is one of several or the only one.
abbrev pub MayCascade : Bool → Bool → Special → Type 0
MayCascade true is_super kind = IsNormal kind
MayCascade false is_super kind = Asserts kind is_super none

abbrev pub has_sends : Sends → Bool
has_sends no_sends = false
has_sends _ = true

abbrev pub several : Sends → Bool
several no_sends = false
several (more_sends kind receiver selector args messages) = has_sends messages

abbrev pub HasMessage : Sends → Type 0
HasMessage no_sends = ⊥
HasMessage _ = Unit

unfoldable mutual
  unfolding size is_super_node

  pub WellFormed : Node → Type 0
  WellFormed (Node.assign left r right) = WellFormed right
  WellFormed (Node.message kind receiver selector args) =
      Asserts kind (is_super_node receiver) none
      × Takes kind (size args)
      × WellFormed receiver
      × AllWellFormed args
  WellFormed (Node.cascade receiver messages) =
      HasMessage messages
      × WellFormed receiver
      × SendsWellFormed (several messages) (is_super_node receiver) messages
  WellFormed (Node.primitive num args) =
      PrimitiveTakes num.old_style num.kind (size args) × AllWellFormed args
  WellFormed (Node.block scope n_args steps) =
      AllPromotable scope.my_heap_vars × StepsWellFormed steps
  WellFormed (Node.inlined steps) = StepsWellFormed steps
  WellFormed _ = Unit

  pub AllWellFormed : Nodes → Type 0
  AllWellFormed no_nodes = Unit
  AllWellFormed (more_nodes n ns) = WellFormed n × AllWellFormed ns

  pub SendsWellFormed : Bool → Bool → Sends → Type 0
  SendsWellFormed more is_super no_sends = Unit
  SendsWellFormed more is_super (more_sends kind receiver selector args messages) =
      MayCascade more is_super kind
      × Takes kind (size args)
      × WellFormed receiver
      × AllWellFormed args
      × SendsWellFormed more is_super messages

  pub StepsWellFormed : Steps → Type 0
  StepsWellFormed no_steps = Unit
  StepsWellFormed (expr_step n steps) = WellFormed n × StepsWellFormed steps
  StepsWellFormed (return_step n steps) = WellFormed n × StepsWellFormed steps

abbrev pub NotEmpty : Ending → Type 0
NotEmpty Ending.empty = ⊥
NotEmpty _ = Unit
