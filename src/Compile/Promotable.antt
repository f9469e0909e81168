-- ===== src/Compile/Promotable.antt =====
-- The variables that the lookups of cmd/vm/Synth.cc promote are those that `Var::generatePromoteOn` of
-- cmd/vm/AST.cc knows.
use valutron.Prelude.{
  ◌≡◌, refl, ◌∙◌, inl, inr, Option, none, some, List, [], ◌∷◌, ◌++◌, arith, Option-cases,
}
use valutron.CodeGen.{Name}
use valutron.Scope.{
  Resolved, parents_heap_var, local, argument, HeapEntry, CodeScope, empty_code_scope, Scope,
  method_scope, block_scope, find_heap_var, find_var, class_lookup, add_heap_var, promote_local,
  promote_argument, promote_parents, lookup_own, adopt, lookup_from_block, lookup, add_arg,
  add_local,
}
use valutron.Tree.Synth.{add_args, add_locals, declare, add_locals_to}
use valutron.Compile.Idents.{IsPromotable, AllPromotable}

abbrev pub ScopesPromotable : Scope → Type 0
ScopesPromotable (method_scope c ivars) = AllPromotable c.my_heap_vars
ScopesPromotable (block_scope c p) = AllPromotable c.my_heap_vars × ScopesPromotable p

AllPromotable-append :
    (hs : List HeapEntry) (h : HeapEntry)
    → AllPromotable hs
    → IsPromotable h.origin
    → AllPromotable (hs ++ h ∷ [])
AllPromotable-append [] h k p = (p, tt)
AllPromotable-append (x ∷ hs) h k p = (k.0, AllPromotable-append hs h k.1 p)

add_heap_var-AllPromotable :
    (name : Name) (origin : Resolved) (c : CodeScope)
    → AllPromotable c.my_heap_vars
    → IsPromotable origin
    → AllPromotable (add_heap_var name origin c).my_heap_vars
unfolding add_heap_var
add_heap_var-AllPromotable name origin c h p = AllPromotable-append c.my_heap_vars _ h p

abbrev OwnPromotable : Option (CodeScope × Resolved) → Type 0
OwnPromotable none = Unit
OwnPromotable (some (c, r)) = AllPromotable c.my_heap_vars

lookup_own-OwnPromotable :
    (name : Name) (c : CodeScope) → AllPromotable c.my_heap_vars → OwnPromotable (lookup_own name c)
unfolding lookup_own promote_local promote_argument
lookup_own-OwnPromotable name c h = elim (Option-cases (find_heap_var name c.my_heap_vars)) [
  | inr (v, found) ↦
      let answer : lookup_own name c ≡ some (c, parents_heap_var v.index) = ground arith in
      rw answer h
  | inl new ↦ elim (Option-cases (find_var name c.locals)) [
    | inr (v, found) ↦
        let answer : lookup_own name c ≡ some (promote_local name v c) = ground arith in
        rw answer (add_heap_var-AllPromotable name (local v.index) c h tt)
    | inl no_local ↦ elim (Option-cases (find_var name c.args)) [
      | inr (v, found) ↦
          let answer : lookup_own name c ≡ some (promote_argument name v c) = ground arith in
          rw answer (add_heap_var-AllPromotable name (argument v.index) c h tt)
      | inl no_arg ↦ let answer : lookup_own name c ≡ none = ground arith in rw answer tt
    ]
  ]
]

adopt-ScopesPromotable :
    (name : Name) (c : CodeScope) (o : Scope × Resolved)
    → AllPromotable c.my_heap_vars
    → ScopesPromotable o.0
    → ScopesPromotable (adopt name c o).0
unfolding adopt promote_parents
adopt-ScopesPromotable name c (p, parents_heap_var j) h k =
    (add_heap_var-AllPromotable name (parents_heap_var j) c h tt, k)
adopt-ScopesPromotable name c (p, _) h k = (h, k)

lookup_from_block-ScopesPromotable :
    (name : Name) (s : Scope) → ScopesPromotable s → ScopesPromotable (lookup_from_block name s).0
unfolding lookup_from_block
lookup_from_block-ScopesPromotable name (method_scope c ivars) h =
    elim (Option-cases (lookup_own name c)) [
      | inr ((c', r), own) ↦
          let answer : lookup_from_block name (method_scope c ivars) ≡ (method_scope c' ivars, r) =
            ground arith in
          rw answer (rw own at (lookup_own-OwnPromotable name c h))
      | inl none_own ↦
          let answer : lookup_from_block name (method_scope c ivars)
              ≡ (method_scope c ivars, class_lookup name ivars) =
            ground arith in
          rw answer h
    ]
lookup_from_block-ScopesPromotable name (block_scope c p) h =
    elim (Option-cases (lookup_own name c)) [
      | inr ((c', r), own) ↦
          let answer : lookup_from_block name (block_scope c p) ≡ (block_scope c' p, r) =
            ground arith in
          rw answer (rw own at (lookup_own-OwnPromotable name c h.0), h.1)
      | inl none_own ↦
          let answer : lookup_from_block name (block_scope c p)
              ≡ adopt name c (lookup_from_block name p) =
            ground arith in
          rw answer (
            adopt-ScopesPromotable name c (lookup_from_block name p) h.0
              (lookup_from_block-ScopesPromotable name p h.1))
    ]

-- A lookup leaves scopes in which every promoted variable can be promoted.
pub lookup-ScopesPromotable :
    (name : Name) (s : Scope) → ScopesPromotable s → ScopesPromotable (lookup name s).0
unfolding lookup
lookup-ScopesPromotable name (method_scope c ivars) h = ground arith
lookup-ScopesPromotable name (block_scope c p) h =
    ground (arith, lookup_from_block-ScopesPromotable name p h.1)

-- Declarations touch no heap variable.
add_args-frame :
    (names : List Name) (c : CodeScope) → (add_args names c).my_heap_vars ≡ c.my_heap_vars
unfolding add_args add_arg
add_args-frame [] c = refl
add_args-frame (name ∷ names) c = add_args-frame names (add_arg name c)

add_local-frame :
    (name : Name) (c c' : CodeScope) → add_local name c ≡ some c' → c'.my_heap_vars ≡ c.my_heap_vars
unfolding add_local
add_local-frame name c c' e = ground arith

add_locals-frame :
    (names : List Name) (c c' : CodeScope)
    → add_locals names c ≡ some c'
    → c'.my_heap_vars ≡ c.my_heap_vars
unfolding add_locals
add_locals-frame [] c c' e = ground arith
add_locals-frame (name ∷ names) c c' e = elim (Option-cases (add_local name c)) [
  | inr (d, added) ↦ add_locals-frame names d c' (ground arith) ∙ add_local-frame name c d added
  | inl taken ↦ absurd (ground arith)
]

pub declare-AllPromotable :
    (args locals : List Name) (c : CodeScope)
    → declare args locals ≡ some c
    → AllPromotable c.my_heap_vars
unfolding declare
declare-AllPromotable args locals c e =
    rw
      (
        add_locals-frame locals (add_args args empty_code_scope) c e,
        add_args-frame args empty_code_scope,
      )
      tt

pub add_locals_to-ScopesPromotable :
    (names : List Name) (s s' : Scope)
    → add_locals_to names s ≡ some s'
    → ScopesPromotable s
    → ScopesPromotable s'
unfolding add_locals_to
add_locals_to-ScopesPromotable names (method_scope c ivars) s' e h =
    elim (Option-cases (add_locals names c)) [
      | inr (d, added) ↦
          let answer : s' ≡ method_scope d ivars = ground arith in
          rw (answer, add_locals-frame names c d added) h
      | inl taken ↦ absurd (ground arith)
    ]
add_locals_to-ScopesPromotable names (block_scope c p) s' e h =
    elim (Option-cases (add_locals names c)) [
      | inr (d, added) ↦
          let answer : s' ≡ block_scope d p = ground arith in
          rw (answer, add_locals-frame names c d added) h
      | inl taken ↦ absurd (ground arith)
    ]
