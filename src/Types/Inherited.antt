-- ===== src/Types/Inherited.antt =====
-- The variables that `Type::registerIVars` of cmd/vm/Typecheck.cc enters, for a class and those above it.
use valutron.Prelude.{
  ℕ, zero, suc, ◌<◌, ◌≡◌, ◌≢◌, refl, sym, ap, ◌∙◌, some, true, List, [], ◌∷◌, arith, inl,
  ℕ_discrete,
}
use valutron.Outcome.{Outcome, done}
use valutron.CodeGen.{Name}
use valutron.Types.Store.{Addr, Store, >>=-done}
use valutron.Types.Invocation.{Invocation, register, type_in_invocation}
use valutron.Types.Register.{assign, add_each, register_ivars}
use valutron.Types.Terms.{Term, Agree, Agree-refl, Agree-trans, Denotes, Denotes-Agree, subst_term}
use valutron.Types.Substitution.{walks}
use valutron.Types.Hierarchy.{
  Hierarchy, IsHierarchy, IsHierarchy-Agree, supertype, member, Anywhere, Bound, bind_terms,
  register-bind_terms,
}
use valutron.Types.Supertypes.{WellFormed-Given}
use valutron.Types.Responds.{not_null}
use valutron.Types.Inherits.{IsRanked}
use valutron.Types.Entries.{
  Entries, Enters, AllFormed, HasVars, enter, enter_each, inherited_vars, Enters-Agree,
  HasVars-Agree, Bound-Agree, enter-Enters,
}

-- The variables that are entered, and the store behind that.
abbrev pub Entered : Store → Entries → Outcome (List (Name × Addr) × Store) → Type 0
Entered s es r =
    (vs : List (Name × Addr)) × (s' : Store) × (r ≡ done (vs, s')) × Agree s s' × Enters s' es vs

module _ (h : Hierarchy) (depth : ℕ) (params : List Addr) (invoc : Invocation)
    (own : List (Addr × Addr)) (ρ : Addr → Term) (maps : invoc.ty_param_maps ≡ own ∷ []) where
  add_each-Enters :
      (s : Store) (es : Entries) (vars : List (Name × Addr)) (acc : Entries)
      (vs : List (Name × Addr))
      → ((d : Addr) → member d params ≡ true → Bound s own ρ d)
      → Enters s es vars
      → AllFormed h depth params es
      → Enters s acc vs
      → Entered s (enter_each ρ es acc) (add_each (type_in_invocation depth invoc) vars vs s)
  unfolding add_each enter_each
  add_each-Enters s [] [] acc vs bound e f k = (vs, s, refl, Agree-refl s, k)
  add_each-Enters s [] (v ∷ vars) acc vs bound e f k = absurd e
  add_each-Enters s (e ∷ es) [] acc vs bound e' f k = absurd e'
  add_each-Enters s ((x, t) ∷ es) ((y, a) ∷ vars) acc vs bound (e, den, es') (w, le, ws) k =
      let (b, s1, walked, g, den1) =
        walks Anywhere s invoc ρ t a depth (λ p le. tt) den
          (rw maps (WellFormed-Given h s own [] ρ params bound t w)) le in
      let (vs2, s2, entered, g', k') =
        add_each-Enters s1 es vars (enter x (subst_term ρ t) acc) (assign x b vs)
          (λ d m. Bound-Agree s s1 own ρ d g (bound d m)) (Enters-Agree s s1 es vars g es') ws
          (enter-Enters s1 x (subst_term ρ t) b acc vs den1 (Enters-Agree s s1 acc vs g k)) in
      (
        vs2,
        s2,
        >>=-done (type_in_invocation depth invoc a) _ walked
            ∙ ap (λ y. add_each (type_in_invocation depth invoc) vars (assign y b vs) s1) (sym e)
            ∙ entered,
        Agree-trans g g',
        k',
      )

-- One level, the variables of which are entered.
module _ (depth n : ℕ) (master a c : Addr) (own : List (Addr × Addr)) (vs vs1 : List (Name × Addr))
    (s s1 : Store) (at : (s.types a).cls ≡ c)
    (added : add_each
        (type_in_invocation depth
          (record { receiver = master; true_receiver = master; ty_param_maps = own ∷ [] }))
        (s.classes c).vars
        vs
        s
      ≡ done (vs1, s1)) where
  level_root :
      (s.classes c).super_type ≡ 0 → register_ivars depth (suc n) master own a vs s ≡ done (vs1, s1)
  unfolding register_ivars
  level_root root = rw at (>>=-done (add_each _ (s.classes c).vars vs) _ added ∙ rw root refl)

  level_above :
      (map : List (Addr × Addr))
      → (s.classes c).super_type ≢ 0
      → register
          (s1.classes (s1.types (s.classes c).super_type).cls).ty_params
          (s1.types (s.classes c).super_type).type_args
          own
        ≡ some map
      → register_ivars depth (suc n) master own a vs s
        ≡ register_ivars depth n master map (s.classes c).super_type vs1 s1
  unfolding register_ivars
  level_above map child registered = rw at (
      >>=-done (add_each _ (s.classes c).vars vs) _ added
      ∙ rw (not_null child) (rw registered refl))

-- Suppose that the store holds a hierarchy: every class has the superclass and type parameters of the
-- hierarchy, and if it has a superclass, its supertype is an instance type of that class, made of instances,
-- the class's own type parameters and `id`, each instance with as many type arguments as its class has
-- parameters, and no deeper than the walk may go; that no class is above itself, for a rank falls from each
-- class to its superclass; that a class has a supertype exactly if it has a superclass; and that every class
-- has the variables given for it, each of a type that is again made of instances, the class's own type
-- parameters and `id`, each instance with as many type arguments as its class has parameters, and no deeper
-- than the walk may go. Let an object be of a class whose rank is less than the fuel, and the invocation
-- have an object for each type parameter of that class. Then `registerIVars` ends, makes only new objects,
-- and enters the variables of the class, and then of those above it up to the root, each with the type that
-- its class gives it and the type arguments put in; a variable takes the place of one of the same name. For
-- the class itself the type arguments are those of the invocation; for a class above it they are as the
-- class below writes them, with the type parameters of that class left in.
pub register_ivars-inherited_vars :
    (h : Hierarchy) (rank : Addr → ℕ) (vars : Addr → Entries) (depth n : ℕ) (s : Store)
    (master a c : Addr) (own : List (Addr × Addr)) (ρ : Addr → Term) (acc : Entries)
    (vs : List (Name × Addr))
    → IsRanked h rank
    → IsHierarchy h depth s
    → HasVars h depth vars s
    → (s.types a).cls ≡ c
    → ((d : Addr) → member d (h.params c) ≡ true → Bound s own ρ d)
    → Enters s acc vs
    → rank c < n
    → (es : Entries) × (inherited_vars h vars n c ρ acc ≡ done es)
      × Entered s es (register_ivars depth n master own a vs s)
unfolding inherited_vars register_ivars
register_ivars-inherited_vars h rank vars depth zero s master a c own ρ acc vs ranked i k at bound
      entered lt =
    absurd (omega arith)
register_ivars-inherited_vars h rank vars depth (suc n) s master a c own ρ acc vs ranked i k at
      bound entered lt =
    let invoc : Invocation = record {
      receiver = master;
      true_receiver = master;
      ty_param_maps = own ∷ [];
    } in
    let es = enter_each ρ (vars c) acc in
    let (vs1, s1, added, g, now) =
      add_each-Enters h depth (h.params c) invoc own ρ refl s (vars c) (s.classes c).vars acc vs
        bound (k.has_vars c) (k.vars_formed c) entered in
    elim (ℕ_discrete (h.super_of c) 0) [
      | yes root ↦ (
        es,
        rw root refl,
        (vs1, s1, level_root depth n master a c own vs vs1 s s1 at added (k.ends c root), g, now),
      )
      | no child ↦
          let i1 = IsHierarchy-Agree h depth s s1 g i in
          let k1 = HasVars-Agree h depth vars s s1 g k in
          let sup = (s.classes c).super_type in
          let d : Denotes Anywhere s1 (supertype h c) sup =
            Denotes-Agree Anywhere s s1 (supertype h c) sup g (i.has_supertype c child) in
          let (map, registered, bound1) =
            register-bind_terms s1 (h.params (h.super_of c)) (h.above c) (s1.types sup).type_args
              own ρ d.4 (i.formed c child).0 in
          let there : register (s1.classes (s1.types sup).cls).ty_params (s1.types sup).type_args
                own
              ≡ some map =
            ap (λ e. register (s1.classes e).ty_params (s1.types sup).type_args own) d.3
            ∙ ap (λ ps. register ps (s1.types sup).type_args own) (i1.has_params (h.super_of c))
            ∙ registered in
          let (es1, spec, (vs2, s2, ended, g2, all)) =
            register_ivars-inherited_vars h rank vars depth n s1 master sup (h.super_of c) map
              (bind_terms (h.params (h.super_of c)) (h.above c) ρ) es vs1 ranked i1 k1 d.3
              (λ e m. bound1 e (inl m)) now (omega (arith, ranked.falls c child)) in
          (
            es1,
            rw (not_null child) spec,
            (
              vs2,
              s2,
              level_above depth n master a c own vs vs1 s s1 at added map (k.goes_on c child) there
                  ∙ ended,
              Agree-trans g g2,
              all,
            ),
          )
    ]
