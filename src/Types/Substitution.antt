-- ===== src/Types/Substitution.antt =====
-- `Type::typeInInvocation` is substitution.
use valutron.Prelude.{ℕ, zero, suc, ◌≤◌, ◌<◌, ◌≡◌, ◌≢◌, refl, ap, ◌∙◌, some, List, [], ◌∷◌, arith}
use valutron.Outcome.{Outcome, done}
use valutron.Types.Store.{Addr, Kind, Ty, Store, update, >>=-done, require}
use valutron.Types.Invocation.{
  Invocation, ty_param, map_types, in_invocation_by, type_in_invocation,
}
use valutron.Types.Terms.{
  Term, Terms, inst, var, any, no_terms, more_terms, Agree, Agree-refl, Agree-trans, Denotes,
  DenoteAll, Denotes-moves, DenoteAll-moves, Denotes-Agree, DenoteAll-Agree, height, heights,
  subst_term, subst_terms,
}

-- The type variables of a type are given types by an invocation.
abbrev mutual
  pub Given : (Addr → Type 0) → Store → List (List (Addr × Addr)) → (Addr → Term) → Term → Type 0
  Given P s maps ρ (inst c ts) = GivenAll P s maps ρ ts
  Given P s maps ρ (var d) = (b : Addr) × (ty_param maps d ≡ some b) × Denotes P s (ρ d) b
  Given P s maps ρ any = Unit

  pub GivenAll :
      (Addr → Type 0) → Store → List (List (Addr × Addr)) → (Addr → Term) → Terms → Type 0
  GivenAll P s maps ρ no_terms = Unit
  GivenAll P s maps ρ (more_terms t ts) = Given P s maps ρ t × GivenAll P s maps ρ ts

module _ (P Q : Addr → Type 0) (s s' : Store)
    (same : (p : Addr) → p < s.next → P p → Q p × (p < s'.next) × (s'.types p ≡ s.types p))
    (maps : List (List (Addr × Addr))) (ρ : Addr → Term) where
  mutual
    pub Given-moves : (t : Term) → Given P s maps ρ t → Given Q s' maps ρ t
    Given-moves (inst c ts) h = GivenAll-moves ts h
    Given-moves (var d) (b, e, h) = (b, e, Denotes-moves P Q s s' same (ρ d) b h)
    Given-moves any h = tt

    pub GivenAll-moves : (ts : Terms) → GivenAll P s maps ρ ts → GivenAll Q s' maps ρ ts
    GivenAll-moves no_terms h = tt
    GivenAll-moves (more_terms t ts) (h, hs) = (Given-moves t h, GivenAll-moves ts hs)

-- A new type leaves what there is.
pub Agree-new :
    (s : Store) (t : Ty) → Agree s (record s { types = update s.types s.next t; next = suc s.next })
Agree-new s t = record {
  grows = omega arith;
  same_types = λ p h. ground arith;
  same_blocks = λ p h. refl;
  same_decls = λ p h. refl;
  same_classes = λ p. refl;
  same_complaints = refl;
}

-- The result of the walk over a type, and over a list of types.
abbrev pub Walks : (Addr → Type 0) → Store → Term → Outcome (Addr × Store) → Type 0
Walks P s t r = (a : Addr) × (s' : Store) × (r ≡ done (a, s')) × Agree s s' × Denotes P s' t a

abbrev WalkAll : (Addr → Type 0) → Store → Terms → Outcome (List Addr × Store) → Type 0
WalkAll P s ts r =
    (as' : List Addr) × (s' : Store) × (r ≡ done (as', s')) × Agree s s' × DenoteAll P s' ts as'

-- An instance, of which the arguments are done.
module _ (P : Addr → Type 0) (s : Store) (invoc : Invocation) (n : ℕ) (c : Addr) (ts : Terms)
    (a : Addr) (kind : (s.types a).kind ≡ Kind.resolved_instance) (cls : (s.types a).cls ≡ c)
    (fresh : (p : Addr) → s.next ≤ p → P p) where
  abbrev with_new : Store
  with_new = record s { types = update s.types s.next (s.types a); next = suc s.next }

  abbrev Old : Addr → Type 0
  Old p = P p × (p ≢ s.next)

  instance-Walks :
      WalkAll Old with_new ts
        (map_types (type_in_invocation n invoc) (s.types a).type_args with_new)
      → Walks P s (inst c ts) (type_in_invocation (suc n) invoc a s)
  unfolding type_in_invocation in_invocation_by
  instance-Walks (args, s2, e, g, den) =
      let t = record (s.types a) { type_args = args } in
      let s3 = record s2 { types = update s2.types s.next t } in
      let back : DenoteAll P s3 ts args =
        DenoteAll-moves Old P s2 s3 (λ p lt (h, ne). (h, lt, ground arith)) ts args den in
      let at_new : s3.types s.next ≡ t = ground arith in
      (
        s.next,
        s3,
        ap (λ k. in_invocation_by (type_in_invocation n invoc) invoc k a s) kind
            ∙ >>=-done (map_types (type_in_invocation n invoc) (s.types a).type_args) _ e,
        record {
          grows = omega (arith, g.grows);
          same_types = λ p lt. ground (arith, g.same_types p);
          same_blocks = λ p lt. g.same_blocks p (omega arith);
          same_decls = λ p lt. g.same_decls p (omega arith);
          same_classes = g.same_classes;
          same_complaints = g.same_complaints;
        },
        (
          fresh s.next (omega arith),
          omega (arith, g.grows),
          ap (λ (x : Ty). x.kind) at_new ∙ kind,
          ap (λ (x : Ty). x.cls) at_new ∙ cls,
          rw at_new back,
        ),
      )

mutual
  unfolding height type_in_invocation in_invocation_by subst_term

  pub walks :
      (P : Addr → Type 0) (s : Store) (invoc : Invocation) (ρ : Addr → Term) (t : Term) (a : Addr)
      (n : ℕ)
      → ((p : Addr) → s.next ≤ p → P p)
      → Denotes P s t a
      → Given P s invoc.ty_param_maps ρ t
      → height t ≤ n
      → Walks P s (subst_term ρ t) (type_in_invocation n invoc a s)
  walks P s invoc ρ (inst c ts) a zero fresh d h le = absurd (omega arith)
  walks P s invoc ρ (var v) a zero fresh d h le = absurd (omega arith)
  walks P s invoc ρ any a zero fresh d h le = absurd (omega arith)
  walks P s invoc ρ (inst c ts) a (suc n) fresh d h le =
      let (p, lt, k, e, args) = d in
      let same : (p : Addr)
          → p < s.next
          → P p
          → (P p × (p ≢ s.next))
            × (p < suc s.next)
            × (update s.types s.next (s.types a) p ≡ s.types p) =
        λ p lt h. ((h, omega arith), omega arith, ground arith) in
      let s1 : Store = record s { types = update s.types s.next (s.types a); next = suc s.next } in
      instance-Walks P s invoc n c (subst_terms ρ ts) a k e fresh (
        walk_all (λ p. P p × (p ≢ s.next)) s1 invoc ρ ts (s.types a).type_args n
          (λ p le. (fresh p (omega arith), omega arith))
          (DenoteAll-moves P (λ p. P p × (p ≢ s.next)) s s1 same ts (s.types a).type_args args)
          (GivenAll-moves P (λ p. P p × (p ≢ s.next)) s s1 same invoc.ty_param_maps ρ ts h)
          (omega arith))
  walks P s invoc ρ (var v) a (suc n) fresh d h le =
      let (p, lt, k, e) = d in
      let (b, found, den) = h in
      (
        b,
        s,
        ap (λ k. in_invocation_by (type_in_invocation n invoc) invoc k a s) k
            ∙ ap (λ d. require (ty_param invoc.ty_param_maps d) s) e
            ∙ ap (λ m. require m s) found,
        Agree-refl s,
        den,
      )
  walks P s invoc ρ any a (suc n) fresh d h le = (
    a,
    s,
    ap (λ k. in_invocation_by (type_in_invocation n invoc) invoc k a s) d.2,
    Agree-refl s,
    d,
  )

  walk_all :
      (P : Addr → Type 0) (s : Store) (invoc : Invocation) (ρ : Addr → Term) (ts : Terms)
      (as' : List Addr) (n : ℕ)
      → ((p : Addr) → s.next ≤ p → P p)
      → DenoteAll P s ts as'
      → GivenAll P s invoc.ty_param_maps ρ ts
      → heights ts ≤ n
      → WalkAll P s (subst_terms ρ ts) (map_types (type_in_invocation n invoc) as' s)
  walk_all P s invoc ρ no_terms [] n fresh d h le = ([], s, refl, Agree-refl s, tt)
  walk_all P s invoc ρ no_terms (a ∷ as') n fresh d h le = absurd d
  walk_all P s invoc ρ (more_terms t ts) [] n fresh d h le = absurd d
  walk_all P s invoc ρ (more_terms t ts) (a ∷ as') n fresh d h le =
      let (b, s1, e, g, den) = walks P s invoc ρ t a n fresh d.0 h.0 (omega arith) in
      let same : (p : Addr) → p < s.next → P p → P p × (p < s1.next) × (s1.types p ≡ s.types p) =
        λ p lt h. (h, omega (arith, g.grows), g.same_types p lt) in
      let (bs, s2, es, gs, dens) =
        walk_all P s1 invoc ρ ts as' n (λ p le. fresh p (omega (arith, g.grows)))
          (DenoteAll-Agree P s s1 ts as' g d.1)
          (GivenAll-moves P P s s1 same invoc.ty_param_maps ρ ts h.1) (omega arith) in
      (
        b ∷ bs,
        s2,
        >>=-done (type_in_invocation n invoc a) _ e
            ∙ >>=-done (map_types (type_in_invocation n invoc) as') _ es,
        Agree-trans g gs,
        (Denotes-Agree P s1 s2 (subst_term ρ t) b gs den, dens),
      )

-- If an object denotes a type of classes and type variables, and the invocation has objects that denote types for
-- its variables, then `typeInInvocation`, with fuel for the height of the type, returns an object that denotes
-- the type with these put in; it only makes new objects.
pub type_in_invocation-subst_term :
    (s : Store) (invoc : Invocation) (ρ : Addr → Term) (t : Term) (a : Addr) (n : ℕ)
    → Denotes (λ p. Unit) s t a
    → Given (λ p. Unit) s invoc.ty_param_maps ρ t
    → height t ≤ n
    → Walks (λ p. Unit) s (subst_term ρ t) (type_in_invocation n invoc a s)
type_in_invocation-subst_term s invoc ρ t a n = walks (λ p. Unit) s invoc ρ t a n (λ p le. tt)
