-- ===== src/Types/Returns.antt =====
-- The check of a method that returns the answer to a message.
use valutron.Prelude.{
  ℕ, ◌<◌, ◌≡◌, ◌↔◌, refl, ap, subst, ◌∙◌, sym, some, none, Bool, true, false, List, [], arith,
  length, if◌then◌else◌,
}
use valutron.Outcome.{done}
use valutron.CodeGen.{Name}
use valutron.Scope.{name_eq}
use valutron.Tree.Syntax.{Expr, Stmts, no_exprs, no_stmts, return_stmt, super}
use valutron.Types.Store.{
  Addr, MethodNode, Store, TyEnv, TyChecker, M, pure, Complaint, complain, not_subtype, lookup_var,
  ◌>>=◌, ◌>>◌, >>=-done,
}
use valutron.Types.Send.{Send, type_send}
use valutron.Types.Subtype.{is_subtype_of}
use valutron.Types.Check.{
  type_check_block, type_of_ident, make_flow_inferences, flow, type_of, send_to, check_return,
  check_stmts, check_method, subtype, sends,
}
use valutron.Types.Terms.{Term, Terms, inst, no_terms, Denotes, Denotes-Agree, subst_term}
use valutron.Types.Hierarchy.{
  Hierarchy, IsHierarchy, IsHierarchy-Agree, WellFormed, Anywhere, bind_terms, no_binding,
}
use valutron.Types.Inherits.{Inherits, IsRanked, is_subtype_of-Inherits}
use valutron.Types.Responds.{HasMethods, responds, Typed}
use valutron.Types.Understood.{type_send-responds}

no_flow : (selector x : Name) (env : TyEnv) → flow selector (Expr.ident x) env ≡ none
unfolding flow make_flow_inferences
no_flow selector x env = ground arith

-- The method `^ x selector`.
abbrev pub returns_answer : Name → Name → Stmts
returns_answer x selector = return_stmt (Expr.message (Expr.ident x) selector no_exprs) no_stmts

module _ (sub : Addr → Addr → M Bool) (send : TyEnv → List Addr → Send → M Addr) (x selector : Name)
    (tyc : TyChecker) (s : Store) (recv : Addr) (variable : name_eq x super ≡ false)
    (known : lookup_var tyc.env x ≡ some recv) where
  abbrev message : Send
  message = record {
    to = recv;
    selector = selector;
    true_receiver = recv;
    previous = [];
    skip_first = false;
  }

  type_of_receiver : type_of_ident x tyc s ≡ done (recv, s)
  unfolding type_of_ident
  type_of_receiver = rw (variable, known) refl

  -- What is done for it: the message is sent, and the answer is compared with the return type.
  type_of-message :
      {a : Addr} {s1 : Store}
      → send tyc.env [] message s ≡ done (a, s1)
      → type_of sub send (Expr.message (Expr.ident x) selector no_exprs) tyc s ≡ done (a, s1)
  unfolding type_of send_to
  type_of-message sent =
      >>=-done (type_of_ident x tyc) _ type_of_receiver ∙ rw (no_flow selector x tyc.env) sent

  after_return :
      {a : Addr} {s1 s2 : Store} (answer : Bool)
      → sub a tyc.ret_type s1 ≡ done (answer, s2)
      → (check_return sub send a tyc >> pure tt) s1
        ≡ ((if answer then pure tt else complain (not_subtype a tyc.ret_type)) >> pure tt) s2
  unfolding check_return
  after_return answer compared = rw (compared, ◌>>=◌) refl

  check_stmts-returns_answer :
      {a : Addr} {s1 s2 : Store} (answer : Bool)
      → send tyc.env [] message s ≡ done (a, s1)
      → sub a tyc.ret_type s1 ≡ done (answer, s2)
      → check_stmts sub send (returns_answer x selector) tyc s
        ≡ ((if answer then pure tt else complain (not_subtype a tyc.ret_type)) >> pure tt) s2
  unfolding check_stmts check_return
  check_stmts-returns_answer answer sent compared =
      >>=-done (type_of sub send (Expr.message (Expr.ident x) selector no_exprs) tyc) _
        (type_of-message sent)
      ∙ after_return answer compared

complains_iff :
    (answer : Bool) (a b : Addr) (s : Store)
    → (s' : Store) × ((if answer then pure tt else complain (not_subtype a b)) s ≡ done (tt, s'))
      × ((s'.complaints ≡ s.complaints) ↔ (answer ≡ true))
complains_iff true a b s = (s, refl, (λ e. refl, λ e. refl))
complains_iff false a b s = (
  _,
  refl,
  (λ e. absurd (omega (arith, ap (λ (cs : List Complaint). length cs) e)), λ e. absurd (cc)),
)

-- Suppose that the store holds a hierarchy: every class has the superclass and type parameters of the
-- hierarchy, and if it has a superclass, its supertype is an instance type of that class, made of instances,
-- the class's own type parameters and `id`, each instance with as many type arguments as its class has
-- parameters, and no deeper than the walk may go; that no class is above itself, for a rank falls from each
-- class to its superclass; and that every method of that selector that a class has is without type
-- parameters of its own, and its return type is made of instances, the class's type parameters and `id` (so
-- it is not `self`, `instancetype`, a block or a union), with as many type arguments as each class has
-- parameters, and is no deeper than the walk may go. Let `x` not be `super` and name a variable whose type
-- denotes an instance that is a closed type (instances and `id` only, each instance with as many type
-- arguments as its class has parameters). Let the search from the class of this instance upwards find a
-- method of the selector with the given fuel, and let its return type, with the type arguments put in, be an
-- instance that is again a closed type, of a class whose rank is less than the fuel. Let the method at hand
-- be declared to return instances of a class without type parameters. Then the check of the method `^ x
-- selector` ends, and it complains of nothing exactly when the class of the answer inherits from the
-- declared one.
pub check_method-returns_answer :
    (h : Hierarchy) (rank : Addr → ℕ) (depth n : ℕ) (methods : Addr → List MethodNode)
    (ret : Addr → Term) (x selector : Name) (tyc : TyChecker) (s : Store) (recv c e k d : Addr)
    (ts us ks : Terms) (meth : MethodNode)
    → name_eq x super ≡ false
    → lookup_var tyc.env x ≡ some recv
    → IsRanked h rank
    → IsHierarchy h depth s
    → HasMethods h depth methods selector ret s
    → WellFormed h [] (inst c ts)
    → Denotes Anywhere s (inst c ts) recv
    → responds h methods selector n c ts ≡ done (some (e, us, meth))
    → subst_term (bind_terms (h.params e) us no_binding) (ret meth.ret_type) ≡ inst k ks
    → WellFormed h [] (inst k ks)
    → h.params d ≡ []
    → Denotes Anywhere s (inst d no_terms) tyc.ret_type
    → rank k < n
    → (s' : Store) × (check_method depth n (returns_answer x selector) tyc s ≡ done (tt, s'))
      × ((s'.complaints ≡ s.complaints) ↔ Inherits h d k)
unfolding check_method subtype sends
check_method-returns_answer h rank depth n methods ret x selector tyc s recv c e k d ts us ks meth
      variable known ranked i hm w dr found result wk plain dd lt =
    let sub = is_subtype_of (type_check_block depth n) depth n in
    let msg : Send = record {
      to = recv;
      selector = selector;
      true_receiver = recv;
      previous = [];
      skip_first = false;
    } in
    let typed : Typed h ret recv selector s (type_send sub tyc.env [] depth n msg s)
        (done (some (e, us, meth))) =
      subst (Typed h ret recv selector s (type_send sub tyc.env [] depth n msg s)) found
        (type_send-responds h depth methods ret sub tyc.env n s msg c ts i hm w dr refl) in
    let (a, s1, sent, g, den) = typed in
    let (answer, s2, compared, g', decides) =
      is_subtype_of-Inherits h rank (type_check_block depth n) depth n s1 k d ks a tyc.ret_type
        ranked (IsHierarchy-Agree h depth s s1 g i) plain wk
        (subst (λ t. Denotes Anywhere s1 t a) result den)
        (Denotes-Agree Anywhere s s1 (inst d no_terms) tyc.ret_type g dd) lt in
    let (s3, eq, iff) = complains_iff answer a tyc.ret_type s2 in
    let same : s2.complaints ≡ s.complaints = g'.same_complaints ∙ g.same_complaints in
    (
      s3,
      check_stmts-returns_answer sub (λ env args. type_send sub env args depth n) x selector tyc s
            recv variable known answer sent compared
          ∙ >>=-done (if answer then pure tt else complain (not_subtype a tyc.ret_type))
              (λ u. pure tt) eq,
      ((λ eq'. decides.0 (iff.0 (eq' ∙ sym same))), λ inherits. iff.1 (decides.1 inherits) ∙ same),
    )
