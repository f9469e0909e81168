-- ===== src/Examples/Typed.antt =====
-- The type checker on the classes of Examples/Typing.
use valutron.Prelude.{
  zero, suc, ◌≤◌, ◌≡◌, ◌↔◌, refl, some, none, Bool, false, List, [], ◌∷◌, arith, inl, ◌==◌,
  if◌then◌else◌,
}
use valutron.Outcome.{Outcome, done, dies}
use valutron.CodeGen.{Name}
use valutron.Scope.{name_eq}
use valutron.Tree.Syntax.{super}
use valutron.Types.Store.{
  Addr, Kind, MethodNode, TyChecker, Frame, Store, plain, find, lookup_var, lookup_type,
}
use valutron.Types.Invocation.{Invocation, type_in_invocation, ty_param}
use valutron.Types.Subtype.{is_subtype_of}
use valutron.Types.Send.{Send, type_send, find_method}
use valutron.Types.Check.{check_method}
use valutron.Types.Terms.{Term, inst, var, no_terms, more_terms, Agree, Denotes, height, subst_term}
use valutron.Types.Substitution.{Walks, type_in_invocation-subst_term}
use valutron.Types.Hierarchy.{WellFormed, Anywhere, bind_terms, no_binding}
use valutron.Types.Answers.{Answers, each_below, and_then, below}
use valutron.Types.Refines.{is_subtype_of-below}
use valutron.Types.Inherits.{Inherits, Decides, is_subtype_of-Inherits}
use valutron.Types.Blocks.{IsBlock, is_subtype_of-blocks}
use valutron.Types.Responds.{HasMethods, responds, Typed}
use valutron.Types.Understood.{type_send-responds}
use valutron.Types.Returns.{returns_answer, check_method-returns_answer}
use valutron.Types.Register.{resolve_in_ty_env}
use valutron.Types.Registration.{resolve_in_ty_env-dies}
use valutron.Examples.Typing.{
  classes, methods, at_selector, at_method, rank, checked, checked-IsHierarchy, classes-IsRanked,
  integer_term, number_term, array_term, collection_term, no_checker,
}

-- Blocks are not checked here.
abbrev no_blocks : Addr → List Addr → Store → Outcome (Addr × Store)
no_blocks b args s = dies

abbrev with_integer : Invocation
with_integer = record { receiver = 16; true_receiver = 16; ty_param_maps = ((6, 14) ∷ []) ∷ [] }

abbrev integers : Addr → Term
integers d = integer_term

element_given : ty_param with_integer.ty_param_maps 6 ≡ some 14
unfolding ty_param
element_given = refl

low : height (inst 3 (more_terms (var 6) no_terms)) ≤ 2
unfolding height
low = omega arith

type_in_invocation-subst_term_example :
    Walks
      (λ p. Unit)
      checked
      (subst_term integers (inst 3 (more_terms (var 6) no_terms)))
      (type_in_invocation 2 with_integer 11 checked)
type_in_invocation-subst_term_example =
    type_in_invocation-subst_term checked with_integer integers
      (inst 3 (more_terms (var 6) no_terms)) 11 2
      (tt, omega arith, refl, refl, ((tt, omega arith, refl, refl), tt))
      ((14, element_given, (tt, omega arith, refl, refl, tt)), tt) low

is_subtype_of-below_example :
    Answers checked
      (is_subtype_of no_blocks 2 4 16 17 checked)
      (below classes 4 array_term collection_term)
is_subtype_of-below_example =
    is_subtype_of-below classes 2 no_blocks 4 checked array_term collection_term 16 17
      checked-IsHierarchy (refl, ((refl, tt), tt)) (refl, ((refl, tt), tt))
      (tt, omega arith, refl, refl, ((tt, omega arith, refl, refl, tt), tt))
      (tt, omega arith, refl, refl, ((tt, omega arith, refl, refl, tt), tt))

is_subtype_of-Inherits_example :
    (answer : Bool) × (s' : Store) × (is_subtype_of no_blocks 2 3 14 15 checked ≡ done (answer, s'))
    × Agree checked s'
    × Decides classes 1 2 answer
is_subtype_of-Inherits_example =
    is_subtype_of-Inherits classes rank no_blocks 2 3 checked 2 1 no_terms 14 15 classes-IsRanked
      checked-IsHierarchy refl (refl, tt) (tt, omega arith, refl, refl, tt)
      (tt, omega arith, refl, refl, tt) (omega arith)

first-IsBlock : IsBlock classes checked (more_terms integer_term no_terms) number_term 18
first-IsBlock = record {
  is_block = refl;
  made = omega arith;
  has_args = ((tt, omega arith, refl, refl, tt), tt);
  returns = (tt, omega arith, refl, refl, tt);
  args_formed = ((refl, tt), tt);
  ret_formed = (refl, tt);
}

second-IsBlock : IsBlock classes checked (more_terms number_term no_terms) integer_term 19
second-IsBlock = record {
  is_block = refl;
  made = omega arith;
  has_args = ((tt, omega arith, refl, refl, tt), tt);
  returns = (tt, omega arith, refl, refl, tt);
  args_formed = ((refl, tt), tt);
  ret_formed = (refl, tt);
}

is_subtype_of-blocks_example : Answers checked (is_subtype_of no_blocks 2 4 18 19 checked) (
    and_then
      (each_below
        (below classes 3)
        (more_terms integer_term no_terms)
        (more_terms number_term no_terms))
      (λ holds. if holds then below classes 3 integer_term number_term else done false))
is_subtype_of-blocks_example =
    is_subtype_of-blocks classes 2 3 no_blocks checked (more_terms integer_term no_terms)
      (more_terms number_term no_terms) number_term integer_term 18 19 checked-IsHierarchy
      first-IsBlock second-IsBlock (unfold name_eq in refl)

abbrev returned : Addr → Term
returned p = var 5

returns :
    (c : Addr) (meth : MethodNode)
    → find_method at_selector (methods c) ≡ some meth
    → Denotes Anywhere checked (returned meth.ret_type) meth.ret_type
      × WellFormed classes (classes.params c) (returned meth.ret_type)
      × (height (returned meth.ret_type) ≤ 2)
      × (meth.ty_params ≡ [])
unfolding find_method height
returns zero meth e = absurd (cc)
returns (suc zero) meth e = absurd (cc)
returns (suc (suc zero)) meth e = absurd (cc)
returns (suc (suc (suc zero))) meth e =
    let same : at_method ≡ meth = cc in
    rw (← same) ((tt, omega arith, refl, refl), refl, omega arith, refl)
returns (suc (suc (suc (suc zero)))) meth e = absurd (cc)
returns (suc (suc (suc (suc (suc c))))) meth e = absurd (cc)

checked-HasMethods : HasMethods classes 2 methods at_selector returned checked
checked-HasMethods = record { has_methods = λ c. refl; returns = returns }

abbrev at_message : Send
at_message = record {
  to = 16;
  selector = at_selector;
  true_receiver = 16;
  previous = [];
  skip_first = false;
}

type_send-responds_example :
    Typed classes returned 16 at_selector checked
      (type_send (is_subtype_of no_blocks 2 3) [] [] 2 3 at_message checked)
      (responds classes methods at_selector 3 4 (more_terms integer_term no_terms))
type_send-responds_example =
    type_send-responds classes 2 methods returned (is_subtype_of no_blocks 2 3) [] 3 checked
      at_message 4 (more_terms integer_term no_terms) checked-IsHierarchy checked-HasMethods
      (refl, ((refl, tt), tt))
      (tt, omega arith, refl, refl, ((tt, omega arith, refl, refl, tt), tt)) refl

abbrev x_name : Name
x_name = b'x' ∷ []

-- In a method that is to return a Number, with a variable `x` of the type Array<Integer>.
abbrev checker : TyChecker
checker =
    let frame : Frame = record { vars = (x_name, 16) ∷ []; types = []; enclosing = 0 } in
    record no_checker { env = frame ∷ []; ret_type = 15 }

found_above :
    responds classes methods at_selector 3 4 (more_terms integer_term no_terms)
    ≡ done (some (3, more_terms integer_term no_terms, at_method))
unfolding responds find_method bind_terms subst_term
found_above = refl

as_received :
    subst_term (bind_terms (classes.params 3) (more_terms integer_term no_terms) no_binding) (var 5)
    ≡ integer_term
unfolding bind_terms subst_term
as_received = refl

not_super : name_eq x_name super ≡ false
unfolding name_eq
not_super = refl

is_variable : lookup_var checker.env x_name ≡ some 16
unfolding lookup_var find
is_variable = refl

check_method-returns_answer_example :
    (s' : Store) × (check_method 2 3 (returns_answer x_name at_selector) checker checked
      ≡ done (tt, s'))
    × ((s'.complaints ≡ checked.complaints) ↔ Inherits classes 1 2)
check_method-returns_answer_example =
    check_method-returns_answer classes rank 2 3 methods returned x_name at_selector checker checked
      16 4 3 2 1 (more_terms integer_term no_terms) (more_terms integer_term no_terms) no_terms
      at_method not_super is_variable classes-IsRanked checked-IsHierarchy checked-HasMethods
      (refl, ((refl, tt), tt))
      (tt, omega arith, refl, refl, ((tt, omega arith, refl, refl, tt), tt)) found_above as_received
      (refl, tt) refl (tt, omega arith, refl, refl, tt) (omega arith)

-- Object 25 is the name of a type, of a class that is not there.
abbrev named : Store
named = record checked {
  types = λ p. if p == 25 then record (plain Kind.ident) { name = x_name } else checked.types p;
}

not_there : lookup_type [] x_name ≡ none
unfolding lookup_type
not_there = refl

resolve_in_ty_env-dies_example : resolve_in_ty_env 2 [] 25 named ≡ dies
resolve_in_ty_env-dies_example = resolve_in_ty_env-dies 0 [] 25 named refl (inl not_there)
