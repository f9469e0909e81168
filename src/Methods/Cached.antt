-- ===== src/Methods/Cached.antt =====
-- lookupCached of cmd/vm/Interpreter.cc against the search that it saves.
use valutron.Prelude.{
  ℕ, ◌≡◌, ◌≢◌, ◌⊎◌, refl, subst, Bool, true, false, not, ◌&&◌, arith, inl, inr, Bool-cases, ◌==◌,
}
use valutron.Outcome.{Outcome, done, dies, runs_on}
use valutron.Word.{is_nil}
use valutron.Dictionary.{Obj}
use valutron.Methods.{Classes, Cache, lookup_method, lookup_cached}
use valutron.Methods.Search.{lookup_method-ne_nil}

module _ (hash_code : Obj → ℕ) (classes : Classes) (fuel : ℕ) where
  -- The cache is not in use, or holds what the search answers.
  abbrev pub IsCoherent : Cache → Type 0
  IsCoherent c =
      (is_nil c.method ≡ true)
      ⊎ ((c.version ≢ 5) ⊎ (lookup_method hash_code classes fuel c.cls c.selector ≡ done c.method))

  abbrev pub method_of : Outcome (Obj × Cache) → Outcome Obj
  method_of (done (meth, c)) = done meth
  method_of dies = dies
  method_of runs_on = runs_on

  abbrev hits : Obj → Cache → Bool
  hits cls c = not (is_nil c.method) && (c.cls == cls) && (c.version == 5)

  hit_fields :
      (cls : Obj) (c : Cache)
      → hits cls c ≡ true
      → (is_nil c.method ≡ false) × (c.cls ≡ cls) × (c.version ≡ 5)
  hit_fields cls c hit = ground arith

  hit_found :
      (cls : Obj) (c : Cache)
      → IsCoherent c
      → hits cls c ≡ true
      → lookup_method hash_code classes fuel cls c.selector ≡ done c.method
  hit_found cls c h hit =
      let (nz, same, five) = hit_fields cls c hit in
      elim h [
        | inl nothing ↦ absurd (ground arith)
        | inr (inl other) ↦ absurd (other five)
        | inr (inr found) ↦ rw same at found
      ]

  found_by_search :
      (cls : Obj) (c : Cache) (o : Outcome Obj)
      → lookup_method hash_code classes fuel cls c.selector ≡ o
      → hits cls c ≡ false
      → method_of (lookup_cached hash_code classes fuel cls c) ≡ o
  unfolding lookup_cached
  found_by_search cls c (done m) found miss = rw (miss, found) refl
  found_by_search cls c dies found miss = rw (miss, found) refl
  found_by_search cls c runs_on found miss = rw (miss, found) refl

  -- If the cache is not in use, or holds what `lookupMethod` answers for its class and selector,
  -- then `lookupCached` answers what `lookupMethod` does, and fails where that fails.
  pub lookup_cached-lookup_method :
      (cls : Obj) (c : Cache)
      → IsCoherent c
      → method_of (lookup_cached hash_code classes fuel cls c)
        ≡ lookup_method hash_code classes fuel cls c.selector
  unfolding lookup_cached
  lookup_cached-lookup_method cls c h = elim (Bool-cases (hits cls c)) [
    | inr miss ↦
        found_by_search cls c (lookup_method hash_code classes fuel cls c.selector) refl miss
    | inl hit ↦ rw (hit, hit_found cls c h hit) refl
  ]

  cached_by_search :
      (cls meth : Obj) (c d : Cache) (o : Outcome Obj)
      → lookup_method hash_code classes fuel cls c.selector ≡ o
      → hits cls c ≡ false
      → lookup_cached hash_code classes fuel cls c ≡ done (meth, d)
      → (o ≡ done meth) × (d ≡ record c { method = meth; cls = cls; version = 5 })
  unfolding lookup_cached
  cached_by_search cls meth c d (done m) found miss e = ground arith
  cached_by_search cls meth c d dies found miss e = absurd (ground arith)
  cached_by_search cls meth c d runs_on found miss e = absurd (ground arith)

  -- If the cache is not in use, or holds what `lookupMethod` answers for its class and selector, and
  -- `lookupCached` answers a method, then the cache it leaves holds that method and the class, has
  -- the same selector, is in use, and again holds what `lookupMethod` answers.
  pub lookup_cached-IsCoherent :
      (cls meth : Obj) (c d : Cache)
      → IsCoherent c
      → lookup_cached hash_code classes fuel cls c ≡ done (meth, d)
      → IsCoherent d
        × (d.selector ≡ c.selector)
        × (d.cls ≡ cls)
        × (d.method ≡ meth)
        × (d.version ≡ 5)
  unfolding lookup_cached
  lookup_cached-IsCoherent cls meth c d h e = elim (Bool-cases (hits cls c)) [
    | inr miss ↦
        let (found, same) =
          cached_by_search cls meth c d (lookup_method hash_code classes fuel cls c.selector) refl
            miss e in
        rw same (inr (inr found), refl, refl, refl, refl)
    | inl hit ↦
        let (nz, same, five) = hit_fields cls c hit in
        let m : c.method ≡ meth = ground arith in
        let k : c ≡ d = ground arith in
        subst
          (λ x.
            IsCoherent x
            × (x.selector ≡ c.selector)
            × (x.cls ≡ cls)
            × (x.method ≡ meth)
            × (x.version ≡ 5))
          k (h, refl, same, m, five)
  ]

-- After `lookupCached` has answered a method, whatever the methods and superclasses of the classes
-- are by then, the next `lookupCached` with that cache and class answers the same method.
pub lookup_cached-stale :
    (hash_code : Obj → ℕ) (classes classes' : Classes) (fuel fuel' : ℕ) (cls meth : Obj)
    (c d : Cache)
    → lookup_cached hash_code classes fuel cls c ≡ done (meth, d)
    → lookup_cached hash_code classes' fuel' cls d ≡ done (meth, d)
unfolding lookup_cached
lookup_cached-stale hash_code classes classes' fuel fuel' cls meth c d e =
    elim (Bool-cases (hits hash_code classes fuel cls c)) [
      | inr miss ↦
          let (found, same) =
            cached_by_search hash_code classes fuel cls meth c d
              (lookup_method hash_code classes fuel cls c.selector) refl miss e in
          let nz = lookup_method-ne_nil hash_code classes c.selector fuel cls meth found in
          rw same (ground (arith, nz))
      | inl hit ↦ ground arith
    ]
