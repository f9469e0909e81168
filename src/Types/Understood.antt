-- ===== src/Types/Understood.antt =====
-- `typeSend` to an instance: which method it finds, and of what type the answer is.
use valutron.Prelude.{
  ℕ, zero, suc, ◌≡◌, refl, ap, subst, ◌∙◌, sym, some, none, Bool, true, false, List, [], ◌∷◌, arith,
  ◌==◌, inl, inr, ℕ_discrete,
}
use valutron.Outcome.{done}
use valutron.Types.Store.{
  Addr, MethodNode, Store, TyEnv, M, complain, not_understood, ◌>>◌, >>=-done,
}
use valutron.Types.Invocation.{Invocation, register, type_in_invocation}
use valutron.Types.Send.{
  Send, new_id, find_method, register_new, check_args, send_to_instance, send_by, type_send,
}
use valutron.Types.Terms.{Term, Terms, inst, Denotes}
use valutron.Types.Substitution.{walks}
use valutron.Types.Hierarchy.{
  Hierarchy, IsHierarchy, IsHierarchy-Agree, WellFormed, member, Anywhere, Bound, bind_terms,
  no_binding, register-bind_terms,
}
use valutron.Types.Supertypes.{lifted, lifted-WellFormed, lifted-Walks, WellFormed-Given}
use valutron.Types.Responds.{
  responds, HasMethods, HasMethods-Agree, Typed, Typed-eq, Typed-after, find_method-cases, not_null,
  responds_found, responds_root, responds_above,
}

-- A message without arguments to an instance, step by step.
module _ (sub : Addr → Addr → M Bool) (in_invocation : Invocation → Addr → M Addr) (env : TyEnv)
    (send : Send → M Addr) (m : Send) (s : Store) (map : List (Addr × Addr))
    (registered : register (s.classes (s.types m.to).cls).ty_params (s.types m.to).type_args []
      ≡ some map)
    (not_super : m.skip_first ≡ false) where
  abbrev invocation : Invocation
  invocation = record {
    receiver = m.true_receiver;
    true_receiver = m.true_receiver;
    ty_param_maps = map ∷ m.previous;
  }

  send_to_instance_found :
      (meth : MethodNode)
      → find_method m.selector (s.classes (s.types m.to).cls).i_methods ≡ some meth
      → meth.ty_params ≡ []
      → send_to_instance sub in_invocation env [] send m s
        ≡ in_invocation invocation meth.ret_type s
  unfolding send_to_instance register_new check_args
  send_to_instance_found meth found none_new = rw (registered, not_super, found, none_new) refl

  send_to_instance_root :
      find_method m.selector (s.classes (s.types m.to).cls).i_methods ≡ none
      → (s.classes (s.types m.to).cls).super_class ≡ 0
      → send_to_instance sub in_invocation env [] send m s
        ≡ (complain (not_understood m.true_receiver m.selector) >> new_id) s
  unfolding send_to_instance
  send_to_instance_root absent root = rw (registered, not_super, absent, root) refl

  send_to_instance_above :
      {sup : Addr} {s' : Store}
      → find_method m.selector (s.classes (s.types m.to).cls).i_methods ≡ none
      → ((s.classes (s.types m.to).cls).super_class == 0) ≡ false
      → in_invocation invocation (s.classes (s.types m.to).cls).super_type s ≡ done (sup, s')
      → send_to_instance sub in_invocation env [] send m s
        ≡ send (record m { to = sup; previous = map ∷ m.previous; skip_first = false }) s'
  unfolding send_to_instance
  send_to_instance_above absent child made =
      rw (registered, not_super, absent, child)
        (>>=-done (in_invocation invocation (s.classes (s.types m.to).cls).super_type)
          (λ sup. send (record m { to = sup; previous = map ∷ m.previous; skip_first = false }))
          made)

-- Suppose that the store holds a hierarchy: every class has the superclass and type parameters of the
-- hierarchy, and if it has a superclass, its supertype is an instance type of that class, made of instances,
-- the class's own type parameters and `id`, each instance with as many type arguments as its class has
-- parameters, and no deeper than the walk may go; that every method of that selector that a class has is
-- without type parameters of its own, and its return type is made of instances, the class's type parameters
-- and `id` (so it is not `self`, `instancetype`, a block or a union), with as many type arguments as each
-- class has parameters, and is no deeper than the walk may go; and that the receiver denotes an instance
-- that is a closed type (instances and `id` only, each instance with as many type arguments as its class has
-- parameters). Then `typeSend` of a message without arguments to it, which does not skip the receiver's own
-- class, is the search up the hierarchy, with the same fuel: if the search finds a method, the answer is an
-- object that denotes its return type, with the type arguments put in that the method's class has for the
-- receiver, and only new objects are made; if it finds none, the answer is an `id`, and one complaint is
-- added, that the message is not understood; and if the search needs more fuel, so does `typeSend`.
pub type_send-responds :
    (h : Hierarchy) (depth : ℕ) (methods : Addr → List MethodNode) (ret : Addr → Term)
    (sub : Addr → Addr → M Bool) (env : TyEnv) (n : ℕ) (s : Store) (m : Send) (c : Addr)
    (ts : Terms)
    → IsHierarchy h depth s
    → HasMethods h depth methods m.selector ret s
    → WellFormed h [] (inst c ts)
    → Denotes Anywhere s (inst c ts) m.to
    → m.skip_first ≡ false
    → Typed h ret m.true_receiver m.selector s
        (type_send sub env [] depth n m s)
        (responds h methods m.selector n c ts)
unfolding type_send send_by lifted
type_send-responds h depth methods ret sub env zero s m c ts i k w d first = unfold responds in refl
type_send-responds h depth methods ret sub env (suc n) s m c ts i k w d first =
    let send = type_send sub env [] depth n in
    let inv = type_in_invocation depth in
    let (map, registered, bound) =
      register-bind_terms s (h.params c) ts (s.types m.to).type_args [] no_binding d.4 w.0 in
    let there : register (s.classes (s.types m.to).cls).ty_params (s.types m.to).type_args []
        ≡ some map =
      ap (λ k. register (s.classes k).ty_params (s.types m.to).type_args []) d.3
      ∙ ap (λ ps. register ps (s.types m.to).type_args []) (i.has_params c)
      ∙ registered in
    let listed : find_method m.selector (s.classes (s.types m.to).cls).i_methods
        ≡ find_method m.selector (methods c) =
      ap (λ k. find_method m.selector (s.classes k).i_methods) d.3
      ∙ ap (λ ms. find_method m.selector ms) (k.has_methods c) in
    let by_kind = ap (λ k. send_by sub inv env [] send k m s) d.2 in
    let have : (d : Addr)
        → member d (h.params c) ≡ true
        → Bound s map (bind_terms (h.params c) ts no_binding) d =
      λ d mem. bound d (inl mem) in
    let typed = Typed h ret m.true_receiver m.selector s (type_send sub env [] depth (suc n) m s) in
    elim (find_method-cases (find_method m.selector (methods c))) [
      | inl (meth, e) ↦
          let (den, formed, le, no_params) = k.returns c meth e in
          subst typed (sym (responds_found h methods m.selector n c ts meth e)) (
            Typed-eq h ret m.true_receiver m.selector s (done (some (c, ts, meth)))
              (by_kind
                ∙ send_to_instance_found sub inv env send m s map there first meth (listed ∙ e)
                    no_params)
              (walks Anywhere s (invocation sub inv env send m s map there first)
                (bind_terms (h.params c) ts no_binding) (ret meth.ret_type) meth.ret_type depth
                (λ p le. tt) den
                (WellFormed-Given h s map m.previous (bind_terms (h.params c) ts no_binding)
                  (h.params c) have (ret meth.ret_type) formed)
                le))
      | inr e ↦ elim (ℕ_discrete (h.super_of c) 0) [
        | yes root ↦
            let no_super = ap (λ k. (s.classes k).super_class) d.3 ∙ i.has_super c ∙ root in
            subst typed (sym (responds_root h methods m.selector n c ts e root)) (
              Typed-eq h ret m.true_receiver m.selector s (done none)
                (by_kind
                  ∙ send_to_instance_root sub inv env send m s map there first (listed ∙ e)
                      no_super)
                (s.next, _, refl, ground arith, refl))
        | no child ↦
            let invoc = invocation sub inv env send m s map there first in
            let (sup, s1, e1, g, den) =
              lifted-Walks h depth s c ts map invoc m.previous i child have refl in
            let made = ap (λ k. inv invoc (s.classes k).super_type s) d.3 ∙ e1 in
            let test =
              ap (λ k. (s.classes k).super_class == 0) d.3
              ∙ ap (λ k. k == 0) (i.has_super c)
              ∙ not_null child in
            let above = responds h methods m.selector n (h.super_of c) _ in
            subst typed (sym (responds_above h methods m.selector n c ts e (not_null child))) (
              Typed-eq h ret m.true_receiver m.selector s above
                (by_kind
                  ∙ send_to_instance_above sub inv env send m s map there first (listed ∙ e) test
                      made)
                (Typed-after h ret m.true_receiver m.selector s s1 _ above g (
                  type_send-responds h depth methods ret sub env n s1
                    (record m { to = sup; previous = map ∷ m.previous; skip_first = false })
                    (h.super_of c) _ (IsHierarchy-Agree h depth s s1 g i)
                    (HasMethods-Agree h depth methods m.selector ret s s1 g k)
                    (lifted-WellFormed h c ts (i.formed c child) w.1) den refl)))
      ]
    ]
