-- ===== src/Types/Inherits.antt =====
-- Which instances `isSubtypeOf` takes for instances of a class without type parameters, and for blocks.
use valutron.Prelude.{
  ℕ, zero, suc, ◌<◌, ◌≡◌, ◌≢◌, ◌↔◌, refl, ap, subst, ◌∙◌, sym, Bool, true, false, List, [], arith,
  ◌==◌, ◌⊎◌, inl, inr, length, ℕ_discrete,
}
use valutron.Outcome.{Outcome, done}
use valutron.Types.Store.{Addr, Store, M}
use valutron.Types.Subtype.{is_subtype_of}
use valutron.Types.Terms.{Term, Terms, inst, no_terms, more_terms, Agree, Denotes}
use valutron.Types.Hierarchy.{Hierarchy, IsHierarchy, WellFormed, count, Anywhere}
use valutron.Types.Supertypes.{lifted, lifted-WellFormed}
use valutron.Types.Answers.{Answers, each_below, below}
use valutron.Types.Refines.{is_subtype_of-below}

-- A class is `d` or one of the classes below it.
pub data Inherits (h : Hierarchy) (d : Addr) : Addr → Type 0 where
  itself : (c : Addr) → c ≡ d → Inherits h d c
  by_super : (c : Addr) → h.super_of c ≢ 0 → Inherits h d (h.super_of c) → Inherits h d c

Inherits-cases :
    (h : Hierarchy) (d c : Addr)
    → Inherits h d c
    → (c ≡ d) ⊎ ((h.super_of c ≢ 0) × Inherits h d (h.super_of c))
Inherits-cases h d c (itself _ e) = inl e
Inherits-cases h d c (by_super _ ne i) = inr (ne, i)

-- No class is above itself.
pub record IsRanked (h : Hierarchy) (rank : Addr → ℕ) : Type 0 where
  pub falls : (c : Addr) → h.super_of c ≢ 0 → rank (h.super_of c) < rank c

abbrev pub Decides : Hierarchy → Addr → Addr → Bool → Type 0
Decides h d c b = (b ≡ true) ↔ Inherits h d c

no_args :
    (f : Term → Term → Outcome Bool) (ts us : Terms) → count ts ≡ 0 → each_below f ts us ≡ done true
unfolding each_below
no_args f no_terms us e = refl
no_args f (more_terms t ts) us e = absurd (omega arith)

module _ (h : Hierarchy) (rank : Addr → ℕ) (ranked : IsRanked h rank)
    (formed : (c : Addr)
      → h.super_of c ≢ 0
      → WellFormed h (h.params c) (inst (h.super_of c) (h.above c)))
    (d : Addr) (plain : h.params d ≡ []) where
  -- The comparison of types, case by case.
  below_itself :
      (n : ℕ) (c : Addr) (ts : Terms)
      → c ≡ d
      → WellFormed h [] (inst c ts)
      → below h (suc n) (inst c ts) (inst d no_terms) ≡ done true
  unfolding below
  below_itself n c ts e w =
      let test : (c == d) ≡ true = ground arith in
      rw test (
        no_args (below h n) ts no_terms
          (w.0 ∙ ap (λ k. length (h.params k)) e ∙ ap (λ ps. length ps) plain))

  below_root :
      (n : ℕ) (c : Addr) (ts : Terms)
      → c ≢ d
      → h.super_of c ≡ 0
      → below h (suc n) (inst c ts) (inst d no_terms) ≡ done false
  unfolding below
  below_root n c ts ne e = ground arith

  below_child :
      (n : ℕ) (c : Addr) (ts : Terms)
      → c ≢ d
      → h.super_of c ≢ 0
      → below h (suc n) (inst c ts) (inst d no_terms) ≡ below h n (lifted h c ts) (inst d no_terms)
  unfolding below
  below_child n c ts ne e = ground arith

  pub below-Inherits :
      (n : ℕ) (c : Addr) (ts : Terms)
      → rank c < n
      → WellFormed h [] (inst c ts)
      → (b : Bool) × (below h n (inst c ts) (inst d no_terms) ≡ done b) × Decides h d c b
  unfolding lifted
  below-Inherits zero c ts lt w = absurd (omega arith)
  below-Inherits (suc n) c ts lt w = elim (ℕ_discrete c d) [
    | yes same ↦ (true, below_itself n c ts same w, (λ e. itself c same, λ i. refl))
    | no different ↦ elim (ℕ_discrete (h.super_of c) 0) [
      | yes root ↦ (
        false,
        below_root n c ts different root,
        (
          λ e. absurd (cc),
          λ i. elim (Inherits-cases h d c i) [
            | inl same ↦ absurd (different same)
            | inr (child, above) ↦ absurd (child root)
          ],
        ),
      )
      | no child ↦
          let up = lifted-WellFormed h c ts (formed c child) w.1 in
          let (b, e, decides) =
            below-Inherits n (h.super_of c) _ (omega (arith, ranked.falls c child)) up in
          (
            b,
            below_child n c ts different child ∙ e,
            (
              λ holds. by_super c child (decides.0 holds),
              λ i. elim (Inherits-cases h d c i) [
                | inl same ↦ absurd (different same)
                | inr (child, above) ↦ decides.1 above
              ],
            ),
          )
    ]
  ]

-- Suppose that the store holds a hierarchy: every class has the superclass and type parameters of the
-- hierarchy, and if it has a superclass, its supertype is an instance type of that class, made of instances,
-- the class's own type parameters and `id`, each instance with as many type arguments as its class has
-- parameters, and no deeper than the walk may go; and that no class is above itself, for a rank falls from
-- each class to its superclass. Let one object denote an instance of a class, which is a closed type
-- (instances and `id` only, each instance with as many type arguments as its class has parameters), and
-- another the instance type of a class without type parameters. If the rank of the first class is less than
-- the fuel, then `isSubtypeOf` of the two ends and says whether the first class inherits from the other; it
-- only makes new objects.
pub is_subtype_of-Inherits :
    (h : Hierarchy) (rank : Addr → ℕ) (type_check_block : Addr → List Addr → M Addr) (depth n : ℕ)
    (s : Store) (c d : Addr) (ts : Terms) (a b : Addr)
    → IsRanked h rank
    → IsHierarchy h depth s
    → h.params d ≡ []
    → WellFormed h [] (inst c ts)
    → Denotes Anywhere s (inst c ts) a
    → Denotes Anywhere s (inst d no_terms) b
    → rank c < n
    → (answer : Bool) × (s' : Store) × (is_subtype_of type_check_block depth n a b s
        ≡ done (answer, s'))
      × Agree s s'
      × Decides h d c answer
is_subtype_of-Inherits h rank type_check_block depth n s c d ts a b ranked i plain w da db lt =
    let (answer, e, decides) = below-Inherits h rank ranked i.formed d plain n c ts lt w in
    let no_args : WellFormed h [] (inst d no_terms) = (sym (ap (λ ps. length ps) plain), tt) in
    let answers : Answers s (is_subtype_of type_check_block depth n a b s) (done answer) =
      subst (λ o. Answers s (is_subtype_of type_check_block depth n a b s) o) e
        (is_subtype_of-below h depth type_check_block n s (inst c ts) (inst d no_terms) a b i w
          no_args da db) in
    (answer, answers.0, answers.1, answers.2, decides)
