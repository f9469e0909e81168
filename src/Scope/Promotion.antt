-- ===== src/Scope/Promotion.antt =====
-- Promotion of variables that an inner block uses: lookupFromBlock of cmd/vm/Synth.cc, done twice.
use valutron.Prelude.{
  ℕ, ◌+◌, ◌≡◌, inl, inr, none, some, List, [], ◌∷◌, ◌++◌, length, arith, Option-cases,
}
use valutron.CodeGen.{Name}
use valutron.Scope.{
  Resolved, parents_heap_var, local, argument, HeapEntry, CodeScope, Scope, method_scope,
  block_scope, find_heap_var, find_var, lookup_own, adopt, lookup_from_block, add_heap_var,
  promote_local, promote_argument, promote_parents,
}
use valutron.Scope.Names.{name_eq_refl}

abbrev entry : Name → ℕ → Resolved → HeapEntry
entry name i origin = record { name = name; index = i; origin = origin }

-- A new entry behind entries of other names is the one that is found.
find_heap_var-append :
    (name : Name) (i : ℕ) (origin : Resolved) (hs : List HeapEntry)
    → find_heap_var name hs ≡ none
    → find_heap_var name (hs ++ entry name i origin ∷ []) ≡ some (entry name i origin)
unfolding find_heap_var
find_heap_var-append name i origin [] h = rw (name_eq_refl name)
find_heap_var-append name i origin (x ∷ hs) h =
    ground (arith, find_heap_var-append name i origin hs)

-- What a scope finds of its own, it finds again.
lookup_own-stable :
    (name : Name) (c c' : CodeScope) (r : Resolved)
    → lookup_own name c ≡ some (c', r)
    → lookup_own name c' ≡ some (c', r)
unfolding lookup_own add_heap_var promote_local promote_argument
lookup_own-stable name c c' r h = elim (Option-cases (find_heap_var name c.my_heap_vars)) [
  | inr (e, found) ↦ ground arith
  | inl new ↦ elim (Option-cases (find_var name c.locals)) [
    | inr (v, found) ↦ ground (
      arith,
      find_heap_var-append name (length c.my_heap_vars + 1) (local v.index) c.my_heap_vars new,
    )
    | inl no_local ↦ elim (Option-cases (find_var name c.args)) [
      | inr (v, found) ↦ ground (
        arith,
        find_heap_var-append name (length c.my_heap_vars + 1) (argument v.index) c.my_heap_vars new,
      )
      | inl no_arg ↦ absurd (ground arith)
    ]
  ]
]

lookup_own-none :
    (name : Name) (c : CodeScope)
    → lookup_own name c ≡ none
    → find_heap_var name c.my_heap_vars ≡ none
unfolding lookup_own
lookup_own-none name c h = elim (Option-cases (find_heap_var name c.my_heap_vars)) [
  | inr (e, found) ↦ absurd (ground arith)
  | inl new ↦ new
]

lookup_own-adopted :
    (name : Name) (j : ℕ) (c : CodeScope)
    → lookup_own name c ≡ none
    → lookup_own name (promote_parents name j c).0 ≡ some (promote_parents name j c)
unfolding lookup_own promote_parents add_heap_var
lookup_own-adopted name j c h = ground (
  arith,
  find_heap_var-append name (length c.my_heap_vars + 1) (parents_heap_var j) c.my_heap_vars
      (lookup_own-none name c h),
)

adopt-stable :
    (name : Name) (c : CodeScope) (o : Scope × Resolved)
    → lookup_own name c ≡ none
    → lookup_from_block name o.0 ≡ o
    → lookup_from_block name (adopt name c o).0 ≡ adopt name c o
unfolding lookup_from_block adopt
adopt-stable name c (p, parents_heap_var j) h ih = ground (arith, lookup_own-adopted name j c h)
adopt-stable name c (p, r) h ih = ground arith

-- A second lookup of a name from an inner block, in the scopes that the first has left, answers the
-- same and leaves the scopes as they are: nothing is promoted twice.
pub lookup_from_block-stable :
    (name : Name) (s : Scope)
    → lookup_from_block name (lookup_from_block name s).0 ≡ lookup_from_block name s
unfolding lookup_from_block
lookup_from_block-stable name (method_scope c ivars) = elim (Option-cases (lookup_own name c)) [
  | inr ((c', r), found) ↦ ground (arith, lookup_own-stable name c c' r found)
  | inl other ↦ ground arith
]
lookup_from_block-stable name (block_scope c p) = elim (Option-cases (lookup_own name c)) [
  | inr ((c', r), found) ↦ ground (arith, lookup_own-stable name c c' r found)
  | inl other ↦ ground (
    arith,
    adopt-stable name c (lookup_from_block name p) other (lookup_from_block-stable name p),
  )
]
