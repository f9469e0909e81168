-- ===== src/Types/Responds.antt =====
-- The search for a method up a hierarchy, and what `typeSend` answers by it.
use valutron.Prelude.{
  ℕ, zero, suc, ◌≤◌, ◌≡◌, ◌≢◌, refl, ap, ◌∙◌, Option, some, none, false, List, [], ◌∷◌, arith, ◌==◌,
  ◌⊎◌, inl, inr, if◌then◌else◌,
}
use valutron.Outcome.{Outcome, done, dies, runs_on}
use valutron.CodeGen.{Name}
use valutron.Types.Store.{Addr, Kind, ClassNode, MethodNode, Store, not_understood}
use valutron.Types.Send.{find_method}
use valutron.Types.Terms.{
  Term, Terms, Agree, Agree-trans, Denotes, Denotes-Agree, height, subst_term, subst_terms,
}
use valutron.Types.Hierarchy.{Hierarchy, WellFormed, Anywhere, bind_terms, no_binding}

-- The class that has the method, its type arguments as the receiver has them, and the method: what the search up
-- the hierarchy finds.
unfoldable pub responds :
    Hierarchy
    → (Addr → List MethodNode)
    → Name
    → ℕ
    → Addr
    → Terms
    → Outcome (Option (Addr × Terms × MethodNode))
responds h methods selector zero c ts = runs_on
responds h methods selector (suc n) c ts =
    let up =
      responds h methods selector n (h.super_of c)
        (subst_terms (bind_terms (h.params c) ts no_binding) (h.above c)) in
    elim (find_method selector (methods c)) [
      | some meth ↦ done (some (c, ts, meth))
      | none ↦ if h.super_of c == 0 then done none else up
    ]

-- The instance methods of the classes. Those of this selector have return types that denote these, and no type
-- parameters of their own.
pub record HasMethods (h : Hierarchy) (depth : ℕ) (methods : Addr → List MethodNode)
    (selector : Name) (ret : Addr → Term) (s : Store) : Type 0 where
  pub has_methods : (c : Addr) → (s.classes c).i_methods ≡ methods c
  pub returns :
      (c : Addr) (meth : MethodNode)
      → find_method selector (methods c) ≡ some meth
      → Denotes Anywhere s (ret meth.ret_type) meth.ret_type
        × WellFormed h (h.params c) (ret meth.ret_type)
        × (height (ret meth.ret_type) ≤ depth)
        × (meth.ty_params ≡ [])

pub HasMethods-Agree :
    (h : Hierarchy) (depth : ℕ) (methods : Addr → List MethodNode) (selector : Name)
    (ret : Addr → Term) (s s' : Store)
    → Agree s s'
    → HasMethods h depth methods selector ret s
    → HasMethods h depth methods selector ret s'
HasMethods-Agree h depth methods selector ret s s' g i = record {
  has_methods = λ c. ap (λ (k : ClassNode). k.i_methods) (g.same_classes c) ∙ i.has_methods c;
  returns = λ c meth e.
      let (d, w, le, no_params) = i.returns c meth e in
      (Denotes-Agree Anywhere s s' (ret meth.ret_type) meth.ret_type g d, w, le, no_params);
}

-- The type of an answer: the return type of the method that is found, as the receiver has it, and nothing is
-- complained of; or `id`, and it is complained that the receiver does not understand.
abbrev pub Typed :
    Hierarchy
    → (Addr → Term)
    → Addr
    → Name
    → Store
    → Outcome (Addr × Store)
    → Outcome (Option (Addr × Terms × MethodNode))
    → Type 0
Typed h ret recv selector s r (done (some (c, ts, meth))) =
    (a : Addr) × (s' : Store) × (r ≡ done (a, s'))
    × Agree s s'
    × Denotes Anywhere s' (subst_term (bind_terms (h.params c) ts no_binding) (ret meth.ret_type)) a
Typed h ret recv selector s r (done none) =
    (a : Addr) × (s' : Store) × (r ≡ done (a, s'))
    × ((s'.types a).kind ≡ Kind.id)
    × (s'.complaints ≡ not_understood recv selector ∷ s.complaints)
Typed h ret recv selector s r dies = r ≡ dies
Typed h ret recv selector s r runs_on = r ≡ runs_on

module _ (h : Hierarchy) (ret : Addr → Term) (recv : Addr) (selector : Name) where
  pub Typed-eq :
      (s : Store) {r r' : Outcome (Addr × Store)} (o : Outcome (Option (Addr × Terms × MethodNode)))
      → r ≡ r'
      → Typed h ret recv selector s r' o
      → Typed h ret recv selector s r o
  Typed-eq s o e t = rw e t

  pub Typed-after :
      (s s' : Store) (r : Outcome (Addr × Store)) (o : Outcome (Option (Addr × Terms × MethodNode)))
      → Agree s s'
      → Typed h ret recv selector s' r o
      → Typed h ret recv selector s r o
  Typed-after s s' r (done (some (c, ts, meth))) g (a, s'', e, g', d) =
      (a, s'', e, Agree-trans g g', d)
  Typed-after s s' r (done none) g (a, s'', e, k, c) =
      (a, s'', e, k, c ∙ ap (λ cs. not_understood recv selector ∷ cs) g.same_complaints)
  Typed-after s s' r dies g e = e
  Typed-after s s' r runs_on g e = e

pub find_method-cases :
    (o : Option MethodNode) → ((meth : MethodNode) × (o ≡ some meth)) ⊎ (o ≡ none)
find_method-cases (some meth) = inl (meth, refl)
find_method-cases none = inr refl

pub not_null : {a : Addr} → a ≢ 0 → (a == 0) ≡ false
not_null ne = ground arith

-- The search, case by case.
module _ (h : Hierarchy) (methods : Addr → List MethodNode) (selector : Name) (n : ℕ) (c : Addr)
    (ts : Terms) where
  pub responds_found :
      (meth : MethodNode)
      → find_method selector (methods c) ≡ some meth
      → responds h methods selector (suc n) c ts ≡ done (some (c, ts, meth))
  unfolding responds
  responds_found meth e = rw (e, responds) refl

  pub responds_root :
      find_method selector (methods c) ≡ none
      → h.super_of c ≡ 0
      → responds h methods selector (suc n) c ts ≡ done none
  unfolding responds
  responds_root e root = rw (e, responds) (rw root refl)

  pub responds_above :
      find_method selector (methods c) ≡ none
      → (h.super_of c == 0) ≡ false
      → responds h methods selector (suc n) c ts
        ≡ responds h methods selector n
            (h.super_of c)
            (subst_terms (bind_terms (h.params c) ts no_binding) (h.above c))
  unfolding responds
  responds_above e child = rw (e, responds) (rw child refl)
