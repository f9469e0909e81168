-- ===== src/Types/Supertypes.antt =====
-- The supertype of an instance type: what `typeInInvocation` makes of that of its class.
use valutron.Prelude.{
  ℕ, ◌≡◌, ◌≢◌, refl, ◌∙◌, true, List, [], ◌∷◌, arith, ◌==◌, inl, inr, Bool-cases, if◌then◌else◌,
}
use valutron.Types.Store.{Addr, Store}
use valutron.Types.Invocation.{Invocation, ty_param, type_in_invocation}
use valutron.Types.Terms.{
  Term, Terms, inst, var, any, no_terms, more_terms, subst_term, subst_terms,
}
use valutron.Types.Substitution.{Given, GivenAll, Walks, walks}
use valutron.Types.Hierarchy.{
  Hierarchy, IsHierarchy, WellFormed, WellFormedAll, supertype, count, member, Anywhere, Bound,
  bind_terms, no_binding,
}

module _ (h : Hierarchy) (s : Store) (map : List (Addr × Addr)) (rest : List (List (Addr × Addr)))
    (ρ : Addr → Term) (vars : List Addr)
    (bound : (d : Addr) → member d vars ≡ true → Bound s map ρ d) where
  Given-var : (d : Addr) → Bound s map ρ d → Given Anywhere s (map ∷ rest) ρ (var d)
  unfolding ty_param
  Given-var d (b, e, den) = (b, rw (e, ty_param), den)

  mutual
    pub WellFormed-Given : (t : Term) → WellFormed h vars t → Given Anywhere s (map ∷ rest) ρ t
    WellFormed-Given (inst c ts) w = WellFormedAll-GivenAll ts w.1
    WellFormed-Given (var d) w = Given-var d (bound d w)
    WellFormed-Given any w = tt

    WellFormedAll-GivenAll :
        (ts : Terms) → WellFormedAll h vars ts → GivenAll Anywhere s (map ∷ rest) ρ ts
    WellFormedAll-GivenAll no_terms w = tt
    WellFormedAll-GivenAll (more_terms t ts) w =
        (WellFormed-Given t w.0, WellFormedAll-GivenAll ts w.1)

module _ (h : Hierarchy) (ρ : Addr → Term) (vars : List Addr)
    (closed : (d : Addr) → member d vars ≡ true → WellFormed h [] (ρ d)) where
  count-subst_terms : (ts : Terms) → count (subst_terms ρ ts) ≡ count ts
  unfolding subst_term
  count-subst_terms no_terms = refl
  count-subst_terms (more_terms t ts) = omega (arith, count-subst_terms ts)

  mutual
    unfolding subst_term

    pub subst_term-WellFormed : (t : Term) → WellFormed h vars t → WellFormed h [] (subst_term ρ t)
    subst_term-WellFormed (inst c ts) w =
        (count-subst_terms ts ∙ w.0, subst_terms-WellFormed ts w.1)
    subst_term-WellFormed (var d) w = closed d w
    subst_term-WellFormed any w = tt

    subst_terms-WellFormed :
        (ts : Terms) → WellFormedAll h vars ts → WellFormedAll h [] (subst_terms ρ ts)
    subst_terms-WellFormed no_terms w = tt
    subst_terms-WellFormed (more_terms t ts) w =
        (subst_term-WellFormed t w.0, subst_terms-WellFormed ts w.1)

bind_terms-WellFormed :
    (h : Hierarchy) (ps : List Addr) (ts : Terms) (ρ : Addr → Term)
    → WellFormedAll h [] ts
    → ((d : Addr) → WellFormed h [] (ρ d))
    → (d : Addr) → WellFormed h [] (bind_terms ps ts ρ d)
unfolding bind_terms
bind_terms-WellFormed h [] ts ρ w all d = all d
bind_terms-WellFormed h (p ∷ ps) no_terms ρ w all d = all d
bind_terms-WellFormed h (p ∷ ps) (more_terms t ts) ρ w all d =
    bind_terms-WellFormed h ps ts (λ d. if p == d then t else ρ d) w.1
      (λ d. elim (Bool-cases (p == d)) [ inl eq ↦ rw eq w.0 | inr ne ↦ rw ne (all d) ]) d

-- The supertype of an instance of a class with these arguments.
unfoldable pub lifted : Hierarchy → Addr → Terms → Term
unfolding bind_terms subst_term
lifted h c ts = subst_term (bind_terms (h.params c) ts no_binding) (supertype h c)

pub lifted-WellFormed :
    (h : Hierarchy) (c : Addr) (ts : Terms)
    → WellFormed h (h.params c) (supertype h c)
    → WellFormedAll h [] ts
    → WellFormed h [] (lifted h c ts)
unfolding lifted
lifted-WellFormed h c ts w all =
    subst_term-WellFormed h (bind_terms (h.params c) ts no_binding) (h.params c)
      (λ d m. bind_terms-WellFormed h (h.params c) ts no_binding all (λ d. tt) d) (supertype h c) w

-- Where a map of the class's parameters is registered, the walk over the supertype makes that.
pub lifted-Walks :
    (h : Hierarchy) (depth : ℕ) (s : Store) (c : Addr) (ts : Terms) (map : List (Addr × Addr))
    (invoc : Invocation) (rest : List (List (Addr × Addr)))
    → IsHierarchy h depth s
    → h.super_of c ≢ 0
    → ((d : Addr)
        → member d (h.params c) ≡ true
        → Bound s map (bind_terms (h.params c) ts no_binding) d)
    → invoc.ty_param_maps ≡ map ∷ rest
    → Walks Anywhere s (lifted h c ts) (type_in_invocation depth invoc (s.classes c).super_type s)
unfolding lifted
lifted-Walks h depth s c ts map invoc rest i ne bound e =
    let ρ = bind_terms (h.params c) ts no_binding in
    walks Anywhere s invoc ρ (supertype h c) (s.classes c).super_type depth (λ p le. tt)
      (i.has_supertype c ne)
      (rw e (WellFormed-Given h s map rest ρ (h.params c) bound (supertype h c) (i.formed c ne)))
      (i.shallow c ne)
