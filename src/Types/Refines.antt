-- ===== src/Types/Refines.antt =====
-- `isSubtypeOf` on instance types, and the comparison of types without sharing that it implements.
use valutron.Prelude.{
  ℕ, zero, suc, ◌≡◌, ◌≢◌, refl, ap, ap₂, ◌∙◌, sym, Bool, true, false, List, [], ◌∷◌, arith, ◌==◌,
  inl, length, if◌then◌else◌,
}
use valutron.Outcome.{Outcome, done}
use valutron.Types.Store.{Addr, Kind, Store, M, pure, require, ◌>>=◌, >>=-done}
use valutron.Types.Invocation.{Invocation, register, type_in_invocation}
use valutron.Types.Subtype.{
  below_each, instance_is_subtype_of_instance, instance_below, below_kind, compare_kinds,
  is_subtype_of,
}
use valutron.Types.Terms.{
  Term, Terms, inst, var, any, no_terms, more_terms, Agree-refl, Denotes, DenoteAll, Denotes-Agree,
  DenoteAll-Agree,
}
use valutron.Types.Hierarchy.{
  Hierarchy, IsHierarchy, IsHierarchy-Agree, WellFormed, WellFormedAll, count, Anywhere, no_binding,
  register-bind_terms,
}
use valutron.Types.Supertypes.{lifted, lifted-WellFormed, lifted-Walks}
use valutron.Types.Answers.{
  each_below, below, Answers, Answers-after, Answers-eq, Answers-if, Answers-and_then,
  Answers-branch,
}

count-DenoteAll :
    (s : Store) (ts : Terms) (as' : List Addr) → DenoteAll Anywhere s ts as' → length as' ≡ count ts
count-DenoteAll s no_terms [] h = refl
count-DenoteAll s no_terms (a ∷ as') h = absurd h
count-DenoteAll s (more_terms t ts) [] h = absurd h
count-DenoteAll s (more_terms t ts) (a ∷ as') h = omega (arith, count-DenoteAll s ts as' h.1)

module _ (h : Hierarchy) (depth : ℕ) where
  -- A comparison of objects that answers as a comparison of types does.
  abbrev pub Implements : (Addr → Addr → M Bool) → (Term → Term → Outcome Bool) → Type 0
  Implements sub f =
      (s : Store) (t u : Term) (a b : Addr)
      → IsHierarchy h depth s
      → WellFormed h [] t
      → WellFormed h [] u
      → Denotes Anywhere s t a
      → Denotes Anywhere s u b
      → Answers s (sub a b s) (f t u)

  same_count :
      (c d : Addr) (ts us : Terms)
      → count ts ≡ length (h.params c)
      → count us ≡ length (h.params d)
      → c ≡ d
      → count ts ≡ count us
  same_count c d ts us e e' eq = e ∙ ap (λ k. length (h.params k)) eq ∙ sym e'

  module _ (sub : Addr → Addr → M Bool) (f : Term → Term → Outcome Bool)
      (implements : Implements sub f) where
    pub below_each-each_below :
        (s : Store) (ts us : Terms) (as' bs : List Addr)
        → IsHierarchy h depth s
        → WellFormedAll h [] ts
        → WellFormedAll h [] us
        → DenoteAll Anywhere s ts as'
        → DenoteAll Anywhere s us bs
        → Answers s (below_each sub as' bs s) (each_below f ts us)
    unfolding below_each each_below
    below_each-each_below s no_terms us [] bs i wt wu dt du = (s, refl, Agree-refl s)
    below_each-each_below s no_terms us (a ∷ as') bs i wt wu dt du = absurd dt
    below_each-each_below s (more_terms t ts) us [] bs i wt wu dt du = absurd dt
    below_each-each_below s (more_terms t ts) no_terms (a ∷ as') [] i wt wu dt du = refl
    below_each-each_below s (more_terms t ts) no_terms (a ∷ as') (b ∷ bs) i wt wu dt du = absurd du
    below_each-each_below s (more_terms t ts) (more_terms u us) (a ∷ as') [] i wt wu dt du =
        absurd du
    below_each-each_below s (more_terms t ts) (more_terms u us) (a ∷ as') (b ∷ bs) i wt wu dt du =
        Answers-and_then s (sub a b) _ (f t u) _ (implements s t u a b i wt.0 wu.0 dt.0 du.0)
          (λ holds s' g. Answers-branch s' holds (below_each sub as' bs) (each_below f ts us) (
            below_each-each_below s' ts us as' bs (IsHierarchy-Agree h depth s s' g i) wt.1 wu.1
              (DenoteAll-Agree Anywhere s s' ts as' g dt.1)
              (DenoteAll-Agree Anywhere s s' us bs g du.1)))

    -- Instances of one class.
    same_class :
        (s : Store) (ts us : Terms) (as' bs : List Addr)
        → IsHierarchy h depth s
        → WellFormedAll h [] ts
        → WellFormedAll h [] us
        → DenoteAll Anywhere s ts as'
        → DenoteAll Anywhere s us bs
        → count ts ≡ count us
        → Answers s
            ((if length as' == 0
                then pure true
                else if length as' == length bs
                then below_each sub as' bs
                else pure false)
              s)
            (each_below f ts us)
    unfolding each_below
    same_class s no_terms us [] bs i wt wu dt du e = (s, refl, Agree-refl s)
    same_class s no_terms us (a ∷ as') bs i wt wu dt du e = absurd dt
    same_class s (more_terms t ts) us [] bs i wt wu dt du e = absurd dt
    same_class s (more_terms t ts) us (a ∷ as') bs i wt wu dt du e =
        let as_long : (length (a ∷ as') == length bs) ≡ true =
          ground
            (arith, count-DenoteAll s (more_terms t ts) (a ∷ as') dt, count-DenoteAll s us bs du) in
        let some : (length (a ∷ as') == 0) ≡ false = ground arith in
        rw (some, as_long) (below_each-each_below s (more_terms t ts) us (a ∷ as') bs i wt wu dt du)

    -- An instance of another class, by its supertype.
    above-Answers :
        (s : Store) (c : Addr) (ts : Terms) (u : Term) (args : List Addr) (b : Addr)
        → IsHierarchy h depth s
        → h.super_of c ≢ 0
        → WellFormed h [] (inst c ts)
        → WellFormed h [] u
        → DenoteAll Anywhere s ts args
        → Denotes Anywhere s u b
        → Answers s
            ((do
              map ← require (register (s.classes c).ty_params args [])
              sup ←
                  type_in_invocation depth
                    (record { receiver = b; true_receiver = b; ty_param_maps = map ∷ [] })
                    (s.classes c).super_type
              sub sup b)
              s)
            (f (lifted h c ts) u)
    above-Answers s c ts u args b i ne wt wu dt du =
        let (map, registered, bound) =
          register-bind_terms s (h.params c) ts args [] no_binding dt wt.0 in
        let invoc : Invocation = record {
          receiver = b;
          true_receiver = b;
          ty_param_maps = map ∷ [];
        } in
        let (sup, s1, e, g, den) =
          lifted-Walks h depth s c ts map invoc [] i ne (λ d m. bound d (inl m)) refl in
        let found : require (register (s.classes c).ty_params args []) s ≡ done (map, s) =
          ap (λ ps. require (register ps args []) s) (i.has_params c)
          ∙ ap (λ r. require r s) registered in
        Answers-eq s (f (lifted h c ts) u)
          (>>=-done (require (register (s.classes c).ty_params args [])) _ found
            ∙ >>=-done (type_in_invocation depth invoc (s.classes c).super_type) (λ sup. sub sup b)
                e)
          (Answers-after (sub sup b s1) (f (lifted h c ts) u) g (
            implements s1 (lifted h c ts) u sup b (IsHierarchy-Agree h depth s s1 g i)
              (lifted-WellFormed h c ts (i.formed c ne) wt.1) wu den
              (Denotes-Agree Anywhere s s1 u b g du)))

    -- The rule for instances.
    instances :
        (s : Store) (c d : Addr) (ts us : Terms) (a b : Addr)
        → IsHierarchy h depth s
        → WellFormed h [] (inst c ts)
        → WellFormed h [] (inst d us)
        → Denotes Anywhere s (inst c ts) a
        → Denotes Anywhere s (inst d us) b
        → Answers s (instance_is_subtype_of_instance sub (type_in_invocation depth) a b s) (
            if c == d
            then each_below f ts us
            else if h.super_of c == 0
            then done false
            else f (lifted h c ts) (inst d us))
    unfolding instance_is_subtype_of_instance
    instances s c d ts us a b i wt wu dt du =
        Answers-if s ((s.types a).cls == (s.types b).cls) (c == d) _ _ _ _ (ap₂ ◌==◌ dt.3 du.3)
          (λ same.
            same_class s ts us (s.types a).type_args (s.types b).type_args i wt.1 wu.1 dt.4 du.4
              (same_count c d ts us wt.0 wu.0 (ground arith)))
          (λ ne.
            Answers-if s ((s.classes (s.types a).cls).super_class == 0) (h.super_of c == 0) _ _ _ _
              (ap (λ k. (s.classes k).super_class == 0) dt.3 ∙ ap (λ k. k == 0) (i.has_super c))
              (λ root. (s, refl, Agree-refl s))
              (λ child. rw dt.3 (
                above-Answers s c ts (inst d us) (s.types a).type_args b i (ground arith) wt wu dt.4
                  du)))

  module _ (type_check_block : Addr → List Addr → M Addr) where
    pub by_kinds :
        (n : ℕ) (s : Store) (a b : Addr) {k k' : Kind}
        → (s.types a).kind ≡ k
        → (s.types b).kind ≡ k'
        → is_subtype_of type_check_block depth (suc n) a b s
          ≡ compare_kinds
              (is_subtype_of type_check_block depth n)
              type_check_block
              (type_in_invocation depth)
              (suc n)
              k
              k'
              a
              b
              s
    unfolding is_subtype_of
    by_kinds n s a b ka kb =
        let sub = is_subtype_of type_check_block depth n in
        ap₂
          (λ k k'. compare_kinds sub type_check_block (type_in_invocation depth) (suc n) k k' a b s)
          ka kb

    -- The tests of `isSubtypeOf` lead to the rule for instances.
    reaches_instances :
        (n : ℕ) (s : Store) (a b : Addr)
        → (s.types a).kind ≡ Kind.resolved_instance
        → (s.types b).kind ≡ Kind.resolved_instance
        → is_subtype_of type_check_block depth (suc n) a b s
          ≡ instance_is_subtype_of_instance
              (is_subtype_of type_check_block depth n)
              (type_in_invocation depth)
              a
              b
              s
    unfolding compare_kinds instance_below
    reaches_instances n s a b ka kb =
        let sub = is_subtype_of type_check_block depth n in
        let rule = instance_is_subtype_of_instance sub (type_in_invocation depth) a in
        by_kinds n s a b ka kb ∙ ap (λ k. below_kind (instance_below rule n) rule k b s) kb

    pub is_subtype_of-Implements :
        (n : ℕ) → Implements (is_subtype_of type_check_block depth n) (below h n)
    unfolding below compare_kinds
    is_subtype_of-Implements zero s t u a b i wt wu dt du = unfold is_subtype_of in refl
    is_subtype_of-Implements (suc n) s (inst c ts) (inst d us) a b i wt wu dt du =
        Answers-eq s (below h (suc n) (inst c ts) (inst d us)) (reaches_instances n s a b dt.2 du.2)
          (instances (is_subtype_of type_check_block depth n) (below h n)
            (is_subtype_of-Implements n) s c d ts us a b i wt wu dt du)
    is_subtype_of-Implements (suc n) s (inst c ts) any a b i wt wu dt du =
        (s, by_kinds n s a b dt.2 du.2, Agree-refl s)
    is_subtype_of-Implements (suc n) s any (inst d us) a b i wt wu dt du =
        (s, by_kinds n s a b dt.2 du.2, Agree-refl s)
    is_subtype_of-Implements (suc n) s any any a b i wt wu dt du =
        (s, by_kinds n s a b dt.2 du.2, Agree-refl s)
    is_subtype_of-Implements (suc n) s (var v) u a b i wt wu dt du = absurd (cc)
    is_subtype_of-Implements (suc n) s (inst c ts) (var v) a b i wt wu dt du = absurd (cc)
    is_subtype_of-Implements (suc n) s any (var v) a b i wt wu dt du = absurd (cc)

-- If the store holds a hierarchy whose supertypes are no deeper than the walk may go, and two objects denote
-- closed types over it, then `isSubtypeOf` does to them what the comparison of types without sharing does,
-- with the same fuel: the same answer, with only new objects made, or no end.
pub is_subtype_of-below :
    (h : Hierarchy) (depth : ℕ) (type_check_block : Addr → List Addr → M Addr) (n : ℕ) (s : Store)
    (t u : Term) (a b : Addr)
    → IsHierarchy h depth s
    → WellFormed h [] t
    → WellFormed h [] u
    → Denotes Anywhere s t a
    → Denotes Anywhere s u b
    → Answers s (is_subtype_of type_check_block depth n a b s) (below h n t u)
is_subtype_of-below h depth type_check_block n = is_subtype_of-Implements h depth type_check_block n
