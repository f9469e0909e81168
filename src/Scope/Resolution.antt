-- ===== src/Scope/Resolution.antt =====
-- What a resolved name points at, for the lookups of cmd/vm/Synth.cc.
use valutron.Prelude.{◌≡◌, refl, inl, inr, List, arith, Option-cases}
use valutron.CodeGen.{Name}
use valutron.Scope.{
  Var, Resolved, heap_var, parents_heap_var, local, argument, instance_var, global, CodeScope,
  Scope, method_scope, block_scope, find_heap_var, find_var, lookup_own, adopt, lookup_from_block,
  lookup, class_lookup,
}
use valutron.Scope.Indices.{find_var-HasVar, find_heap_var-HasHeapVar}
use valutron.Scope.Visible.{
  ivars_of, AllNumbered, InClass, SeenFromBlock, Seen, class_lookup-InClass, in_class,
  lookup_own-Own, Own-SeenOuter, adopt-SeenOuter,
}

-- If the variables of all scopes are numbered from 1, a name used in an inner block resolves to a
-- heap variable of the enclosing scope, which has that name and stands at that index, or to an
-- instance variable or a global; all scopes stay numbered, and the instance variables are as before.
lookup_from_block-Seen :
    (name : Name) (s : Scope)
    → AllNumbered s
    → AllNumbered (lookup_from_block name s).0
      × (ivars_of (lookup_from_block name s).0 ≡ ivars_of s)
      × SeenFromBlock name (lookup_from_block name s).0 (lookup_from_block name s).1
unfolding lookup_from_block
lookup_from_block-Seen name (method_scope c ivars) (n, ni) =
    elim (Option-cases (lookup_own name c)) [
      | inr ((c', r), found) ↦
          let answer : lookup_from_block name (method_scope c ivars) ≡ (method_scope c' ivars, r) =
            ground arith in
          rw answer (
            Own-SeenOuter name ivars (λ d. method_scope d ivars) (λ d m. (m, ni))
              (λ d. (refl, refl)) c' r (rw found at (lookup_own-Own name c n)))
      | inl other ↦
          let answer : lookup_from_block name (method_scope c ivars)
              ≡ (method_scope c ivars, class_lookup name ivars) =
            ground arith in
          rw answer (
            (n, ni),
            refl,
            in_class name (method_scope c ivars) (class_lookup name ivars)
                (class_lookup-InClass name ivars ni),
          )
    ]
lookup_from_block-Seen name (block_scope c p) (n, np) =
    let outer = lookup_from_block-Seen name p np in
    elim (Option-cases (lookup_own name c)) [
      | inr ((c', r), found) ↦
          let answer : lookup_from_block name (block_scope c p) ≡ (block_scope c' p, r) =
            ground arith in
          rw answer (
            Own-SeenOuter name (ivars_of p) (λ d. block_scope d p) (λ d m. (m, np))
              (λ d. (refl, refl)) c' r (rw found at (lookup_own-Own name c n)))
      | inl other ↦
          let answer : lookup_from_block name (block_scope c p)
              ≡ adopt name c (lookup_from_block name p) =
            ground arith in
          rw answer (adopt-SeenOuter name c (lookup_from_block name p) (ivars_of p) n outer)
    ]

outer-Seen :
    (name : Name) (c : CodeScope) (p : Scope) (r : Resolved)
    → SeenFromBlock name p r
    → Seen name (block_scope c p) r
outer-Seen name c p (parents_heap_var i) h = h
outer-Seen name c p (instance_var i) h = h
outer-Seen name c p (global g) h = h
outer-Seen name c p r h = absurd h

method-Seen :
    (name : Name) (c : CodeScope) (ivars : List Var) (r : Resolved)
    → InClass name ivars r
    → Seen name (method_scope c ivars) r
method-Seen name c ivars (instance_var i) h = h
method-Seen name c ivars (global g) h = h
method-Seen name c ivars r h = absurd h

-- If the variables of all scopes are numbered from 1, a name used in the code of a scope resolves to
-- a variable of that name at that index: a heap variable, local or argument of the scope itself, a
-- heap variable of the enclosing scope, an instance variable, or a global that is no instance
-- variable; and all scopes stay numbered.
pub lookup-Seen :
    (name : Name) (s : Scope)
    → AllNumbered s
    → AllNumbered (lookup name s).0 × Seen name (lookup name s).0 (lookup name s).1
unfolding lookup
lookup-Seen name (method_scope c ivars) (n, ni) = elim (Option-cases (find_var name c.locals)) [
  | inr (v, found) ↦
      let answer : lookup name (method_scope c ivars) ≡ (method_scope c ivars, local v.index) =
        ground arith in
      rw answer ((n, ni), find_var-HasVar name c.locals v n.locals found)
  | inl no_local ↦ elim (Option-cases (find_var name c.args)) [
    | inr (v, found) ↦
        let answer : lookup name (method_scope c ivars) ≡ (method_scope c ivars, argument v.index) =
          ground arith in
        rw answer ((n, ni), find_var-HasVar name c.args v n.args found)
    | inl no_arg ↦
        let answer : lookup name (method_scope c ivars)
            ≡ (method_scope c ivars, class_lookup name ivars) =
          ground arith in
        rw answer (
          (n, ni),
          method-Seen name c ivars (class_lookup name ivars) (class_lookup-InClass name ivars ni),
        )
  ]
]
lookup-Seen name (block_scope c p) (n, np) =
    elim (Option-cases (find_heap_var name c.my_heap_vars)) [
      | inr (h, found) ↦
          let answer : lookup name (block_scope c p) ≡ (block_scope c p, heap_var h.index) =
            ground arith in
          rw answer ((n, np), find_heap_var-HasHeapVar name c.my_heap_vars h n.heap_vars found)
      | inl new ↦ elim (Option-cases (find_var name c.args)) [
        | inr (v, found) ↦
            let answer : lookup name (block_scope c p) ≡ (block_scope c p, argument v.index) =
              ground arith in
            rw answer ((n, np), find_var-HasVar name c.args v n.args found)
        | inl no_arg ↦ elim (Option-cases (find_var name c.locals)) [
          | inr (v, found) ↦
              let answer : lookup name (block_scope c p) ≡ (block_scope c p, local v.index) =
                ground arith in
              rw answer ((n, np), find_var-HasVar name c.locals v n.locals found)
          | inl no_local ↦
              let o = lookup_from_block name p in
              let answer : lookup name (block_scope c p) ≡ (block_scope c o.0, o.1) =
                ground arith in
              let (numbered, same, seen) = lookup_from_block-Seen name p np in
              rw answer ((n, numbered), outer-Seen name c o.0 o.1 seen)
        ]
      ]
    ]
