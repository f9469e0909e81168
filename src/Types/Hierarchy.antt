-- ===== src/Types/Hierarchy.antt =====
-- A class hierarchy, what it means that the store holds one, and the types over it.
use valutron.Prelude.{
  ℕ, suc, ◌≤◌, ◌≡◌, ◌≢◌, refl, ap, ◌∙◌, some, Bool, true, false, ◌||◌, List, [], ◌∷◌, arith, ◌==◌,
  ◌⊎◌, inl, inr, length, Bool-cases, if◌then◌else◌,
}
use valutron.Types.Store.{Addr, ClassNode, Store}
use valutron.Types.Invocation.{find_decl, register}
use valutron.Types.Terms.{
  Term, Terms, inst, var, any, no_terms, more_terms, Agree, Denotes, DenoteAll, Denotes-Agree,
  height,
}

-- Of each class, the superclass (0 for none), the type parameters, and the type arguments of the supertype.
pub record Hierarchy : Type 0 where
  pub super_of : Addr → Addr
  pub params : Addr → List Addr
  pub above : Addr → Terms

abbrev pub count : Terms → ℕ
count no_terms = 0
count (more_terms t ts) = suc (count ts)

abbrev pub member : Addr → List Addr → Bool
member d [] = false
member d (p ∷ ps) = p == d || member d ps

abbrev pub Anywhere : Addr → Type 0
Anywhere p = Unit

module _ (h : Hierarchy) where
  -- Every instance has as many arguments as its class has parameters, and every variable is one of `vars`.
  abbrev mutual
    pub WellFormed : List Addr → Term → Type 0
    WellFormed vars (inst c ts) = (count ts ≡ length (h.params c)) × WellFormedAll vars ts
    WellFormed vars (var d) = member d vars ≡ true
    WellFormed vars any = Unit

    pub WellFormedAll : List Addr → Terms → Type 0
    WellFormedAll vars no_terms = Unit
    WellFormedAll vars (more_terms t ts) = WellFormed vars t × WellFormedAll vars ts

  -- The supertype of a class that has a superclass.
  abbrev pub supertype : Addr → Term
  supertype c = inst (h.super_of c) (h.above c)

  -- The class nodes are those of the hierarchy, and no supertype is deeper than `depth`.
  pub record IsHierarchy (depth : ℕ) (s : Store) : Type 0 where
    pub has_super : (c : Addr) → (s.classes c).super_class ≡ h.super_of c
    pub has_params : (c : Addr) → (s.classes c).ty_params ≡ h.params c
    pub has_supertype :
        (c : Addr) → h.super_of c ≢ 0 → Denotes Anywhere s (supertype c) (s.classes c).super_type
    pub formed : (c : Addr) → h.super_of c ≢ 0 → WellFormed (h.params c) (supertype c)
    pub shallow : (c : Addr) → h.super_of c ≢ 0 → height (supertype c) ≤ depth

  pub IsHierarchy-Agree :
      (depth : ℕ) (s s' : Store) → Agree s s' → IsHierarchy depth s → IsHierarchy depth s'
  IsHierarchy-Agree depth s s' g i = record {
    has_super = λ c. ap (λ (k : ClassNode). k.super_class) (g.same_classes c) ∙ i.has_super c;
    has_params = λ c. ap (λ (k : ClassNode). k.ty_params) (g.same_classes c) ∙ i.has_params c;
    has_supertype = λ c ne. rw (g.same_classes c) (
        Denotes-Agree Anywhere s s' (supertype c) (s.classes c).super_type g
          (i.has_supertype c ne));
    formed = i.formed;
    shallow = i.shallow;
  }

-- The types that the parameters of a class stand for.
unfoldable pub bind_terms : List Addr → Terms → (Addr → Term) → Addr → Term
bind_terms (p ∷ ps) (more_terms t ts) ρ = bind_terms ps ts (λ d. if p == d then t else ρ d)
bind_terms [] ts ρ = ρ
bind_terms (p ∷ ps) no_terms ρ = ρ

abbrev pub no_binding : Addr → Term
no_binding d = any

abbrev pub Bound : Store → List (Addr × Addr) → (Addr → Term) → Addr → Type 0
Bound s own ρ d = (b : Addr) × (find_decl d own ≡ some b) × Denotes Anywhere s (ρ d) b

-- Registration of the type arguments is such a binding.
pub register-bind_terms :
    (s : Store) (ps : List Addr) (ts : Terms) (args : List Addr) (own : List (Addr × Addr))
    (ρ : Addr → Term)
    → DenoteAll Anywhere s ts args
    → count ts ≡ length ps
    → (map : List (Addr × Addr)) × (register ps args own ≡ some map)
      × ((d : Addr) → (member d ps ≡ true) ⊎ Bound s own ρ d → Bound s map (bind_terms ps ts ρ) d)
unfolding register bind_terms find_decl
register-bind_terms s [] no_terms [] own ρ h e =
    (own, refl, λ d k. elim k [ inl m ↦ cc | inr b ↦ b ])
register-bind_terms s (p ∷ ps) no_terms args own ρ h e = absurd (omega arith)
register-bind_terms s [] (more_terms t ts) args own ρ h e = absurd (omega arith)
register-bind_terms s ps no_terms (a ∷ args) own ρ h e = absurd h
register-bind_terms s ps (more_terms t ts) [] own ρ h e = absurd h
register-bind_terms s (p ∷ ps) (more_terms t ts) (a ∷ args) own ρ (h, hs) e =
    let ρ' : Addr → Term = λ d. if p == d then t else ρ d in
    let (map, registered, bound) =
      register-bind_terms s ps ts args ((p, a) ∷ own) ρ' hs (omega arith) in
    let first : (d : Addr) → (p == d) ≡ true → Bound s ((p, a) ∷ own) ρ' d =
      λ d eq. (a, rw eq refl, rw eq h) in
    let later : (d : Addr) → (p == d) ≡ false → Bound s own ρ d → Bound s ((p, a) ∷ own) ρ' d =
      λ d ne b. (b.0, rw ne b.1, rw ne b.2) in
    (
      map,
      registered,
      λ d k. bound d (elim (Bool-cases (p == d)) [
        | inl eq ↦ inr (first d eq)
        | inr ne ↦ elim k [ inl m ↦ inl (rw ne at m) | inr b ↦ inr (later d ne b) ]
      ]),
    )
