-- ===== src/Types/Entries.antt =====
-- The variables of classes with their types, as `Type::registerIVars` of cmd/vm/Typecheck.cc enters them in a map,
-- without sharing.
use valutron.Prelude.{
  ℕ, zero, suc, ◌≤◌, ◌≡◌, ◌≢◌, refl, sym, ap, ◌∙◌, List, [], ◌∷◌, ◌==◌, if◌then◌else◌, inl, inr,
  Bool-cases,
}
use valutron.Outcome.{Outcome, done, runs_on}
use valutron.CodeGen.{Name}
use valutron.Scope.{name_eq}
use valutron.Types.Store.{Addr, ClassNode, Store}
use valutron.Types.Register.{assign}
use valutron.Types.Terms.{Term, Agree, Denotes, Denotes-Agree, height, subst_term}
use valutron.Types.Hierarchy.{Hierarchy, WellFormed, Anywhere, Bound, bind_terms}

-- Names with their types, and the variables of a store that they stand for.
abbrev pub Entries : Type 0
Entries = List (Name × Term)

abbrev pub Enters : Store → Entries → List (Name × Addr) → Type 0
Enters s [] [] = Unit
Enters s [] (v ∷ vs) = ⊥
Enters s (e ∷ es) [] = ⊥
Enters s ((x, t) ∷ es) ((y, a) ∷ vs) = (x ≡ y) × Denotes Anywhere s t a × Enters s es vs

abbrev pub AllFormed : Hierarchy → ℕ → List Addr → Entries → Type 0
AllFormed h depth params [] = Unit
AllFormed h depth params ((x, t) ∷ es) =
    WellFormed h params t × (height t ≤ depth) × AllFormed h depth params es

-- A variable of a name that is there already takes its place.
unfoldable pub enter : Name → Term → Entries → Entries
unfolding name_eq
enter x t [] = (x, t) ∷ []
enter x t ((y, u) ∷ es) = if name_eq y x then (x, t) ∷ es else (y, u) ∷ enter x t es

unfoldable pub enter_each : (Addr → Term) → Entries → Entries → Entries
unfolding enter subst_term
enter_each ρ [] acc = acc
enter_each ρ ((x, t) ∷ es) acc = enter_each ρ es (enter x (subst_term ρ t) acc)

-- The variables of a class and of those above it, each with the type arguments of its class put in. These are
-- taken as the class below it writes them, with the type parameters of that class left in.
unfoldable pub inherited_vars :
    Hierarchy → (Addr → Entries) → ℕ → Addr → (Addr → Term) → Entries → Outcome Entries
unfolding enter_each bind_terms
inherited_vars h vars zero c ρ acc = runs_on
inherited_vars h vars (suc n) c ρ acc =
    let here = enter_each ρ (vars c) acc in
    let up =
      inherited_vars h vars n (h.super_of c) (bind_terms (h.params (h.super_of c)) (h.above c) ρ)
        here in
    if h.super_of c == 0 then done here else up

-- The class nodes have these variables, and a supertype exactly if the class has a superclass.
pub record HasVars (h : Hierarchy) (depth : ℕ) (vars : Addr → Entries) (s : Store) : Type 0 where
  pub has_vars : (c : Addr) → Enters s (vars c) (s.classes c).vars
  pub vars_formed : (c : Addr) → AllFormed h depth (h.params c) (vars c)
  pub ends : (c : Addr) → h.super_of c ≡ 0 → (s.classes c).super_type ≡ 0
  pub goes_on : (c : Addr) → h.super_of c ≢ 0 → (s.classes c).super_type ≢ 0

pub Enters-Agree :
    (s s' : Store) (es : Entries) (vs : List (Name × Addr))
    → Agree s s'
    → Enters s es vs
    → Enters s' es vs
Enters-Agree s s' [] [] g h = tt
Enters-Agree s s' [] (v ∷ vs) g h = absurd h
Enters-Agree s s' (e ∷ es) [] g h = absurd h
Enters-Agree s s' ((x, t) ∷ es) ((y, a) ∷ vs) g (e, d, h) =
    (e, Denotes-Agree Anywhere s s' t a g d, Enters-Agree s s' es vs g h)

pub HasVars-Agree :
    (h : Hierarchy) (depth : ℕ) (vars : Addr → Entries) (s s' : Store)
    → Agree s s'
    → HasVars h depth vars s
    → HasVars h depth vars s'
HasVars-Agree h depth vars s s' g k = record {
  has_vars =
      λ c. rw (g.same_classes c) (Enters-Agree s s' (vars c) (s.classes c).vars g (k.has_vars c));
  vars_formed = k.vars_formed;
  ends = λ c root. ap (λ (n : ClassNode). n.super_type) (g.same_classes c) ∙ k.ends c root;
  goes_on = λ c child e.
      k.goes_on c child (sym (ap (λ (n : ClassNode). n.super_type) (g.same_classes c)) ∙ e);
}

pub Bound-Agree :
    (s s' : Store) (own : List (Addr × Addr)) (ρ : Addr → Term) (d : Addr)
    → Agree s s'
    → Bound s own ρ d
    → Bound s' own ρ d
Bound-Agree s s' own ρ d g (b, found, den) = (b, found, Denotes-Agree Anywhere s s' (ρ d) b g den)

pub enter-Enters :
    (s : Store) (x : Name) (t : Term) (a : Addr) (es : Entries) (vs : List (Name × Addr))
    → Denotes Anywhere s t a
    → Enters s es vs
    → Enters s (enter x t es) (assign x a vs)
unfolding enter assign
enter-Enters s x t a [] [] d h = (refl, d, tt)
enter-Enters s x t a [] (v ∷ vs) d h = absurd h
enter-Enters s x t a (e ∷ es) [] d h = absurd h
enter-Enters s x t a ((y, u) ∷ es) ((z, b) ∷ vs) d (e, du, h) =
    let later = enter-Enters s x t a es vs d h in
    elim (Bool-cases (name_eq y x)) [
      | inl eq ↦ rw (sym e, eq) (refl, d, h)
      | inr ne ↦ rw (sym e, ne) (refl, du, later)
    ]
