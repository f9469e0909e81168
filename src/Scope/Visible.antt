-- ===== src/Scope/Visible.antt =====
-- Which variables a scope, and a block inside it, may be told by the lookups of cmd/vm/Synth.cc.
use valutron.Prelude.{
  ℕ, ◌+◌, ◌-◌, ◌≡◌, refl, inl, inr, Option, none, some, List, [], length, arith, Option-cases,
  get_elem?-append_length,
}
use valutron.CodeGen.{Name}
use valutron.Scope.{
  Var, Resolved, heap_var, parents_heap_var, local, argument, instance_var, global, HeapEntry,
  CodeScope, Scope, method_scope, block_scope, find_heap_var, find_var, lookup_own, adopt,
  add_heap_var, promote_local, promote_argument, promote_parents, class_lookup,
}
use valutron.Scope.Indices.{
  IsNumbered, VarsFrom, HeapFrom, HasVar, HasHeapVar, HeapFrom-append, find_var-HasVar,
  find_heap_var-HasHeapVar, mark_promoted-VarsFrom,
}

abbrev pub top : Scope → CodeScope
top (method_scope c ivars) = c
top (block_scope c p) = c

abbrev pub ivars_of : Scope → List Var
ivars_of (method_scope c ivars) = ivars
ivars_of (block_scope c p) = ivars_of p

-- Every level is numbered.
abbrev pub AllNumbered : Scope → Type 0
AllNumbered (method_scope c ivars) = IsNumbered c × VarsFrom 1 ivars
AllNumbered (block_scope c p) = IsNumbered c × AllNumbered p

-- The class has that instance variable, or the name is global and no instance variable has it.
abbrev pub InClass : Name → List Var → Resolved → Type 0
InClass name ivars (instance_var i) = HasVar name ivars i
InClass name ivars (global g) = (g ≡ name) × (find_var name ivars ≡ none)
InClass name ivars _ = ⊥

-- What an inner block may be told: a heap variable of this scope, or something of the class. No local and
-- no argument escapes.
abbrev pub SeenFromBlock : Name → Scope → Resolved → Type 0
SeenFromBlock name s (parents_heap_var i) = HasHeapVar name (top s).my_heap_vars i
SeenFromBlock name s r = InClass name (ivars_of s) r

-- What the code of a scope may be told.
abbrev pub Seen : Name → Scope → Resolved → Type 0
Seen name s (heap_var i) = HasHeapVar name (top s).my_heap_vars i
Seen name s (local i) = HasVar name (top s).locals i
Seen name s (argument i) = HasVar name (top s).args i
Seen name (block_scope c p) (parents_heap_var i) = HasHeapVar name (top p).my_heap_vars i
Seen name s r = InClass name (ivars_of s) r

pub class_lookup-InClass :
    (name : Name) (ivars : List Var)
    → VarsFrom 1 ivars
    → InClass name ivars (class_lookup name ivars)
unfolding class_lookup
class_lookup-InClass name ivars n = elim (Option-cases (find_var name ivars)) [
  | inr (v, found) ↦
      let answer : class_lookup name ivars ≡ instance_var v.index = ground arith in
      rw answer (find_var-HasVar name ivars v n found)
  | inl absent ↦
      let answer : class_lookup name ivars ≡ global name = ground arith in rw answer (refl, absent)
]

pub in_class :
    (name : Name) (s : Scope) (r : Resolved) → InClass name (ivars_of s) r → SeenFromBlock name s r
in_class name s (parents_heap_var i) h = absurd h
in_class name s r h = h

-- A heap variable that is added has the next index.
add_heap_var-HasHeapVar :
    (name : Name) (origin : Resolved) (c : CodeScope)
    → HeapFrom 1 c.my_heap_vars
    → HeapFrom 1 (add_heap_var name origin c).my_heap_vars
      × HasHeapVar name (add_heap_var name origin c).my_heap_vars (length c.my_heap_vars + 1)
unfolding add_heap_var
add_heap_var-HasHeapVar name origin c n =
    let h : HeapEntry = record {
      name = name;
      index = length c.my_heap_vars + 1;
      origin = origin;
    } in
    let last : length c.my_heap_vars + 1 - 1 ≡ length c.my_heap_vars = omega arith in
    (
      HeapFrom-append 1 c.my_heap_vars h n (omega arith),
      (h, rw last (get_elem?-append_length c.my_heap_vars [] h), refl, refl),
    )

-- A scope's own answer to an inner block.
abbrev Own : Name → Option (CodeScope × Resolved) → Type 0
Own name none = Unit
Own name (some (c, r)) =
    IsNumbered c × ((i : ℕ) × (r ≡ parents_heap_var i) × HasHeapVar name c.my_heap_vars i)

pub lookup_own-Own : (name : Name) (c : CodeScope) → IsNumbered c → Own name (lookup_own name c)
unfolding lookup_own promote_local promote_argument
lookup_own-Own name c n = elim (Option-cases (find_heap_var name c.my_heap_vars)) [
  | inr (h, found) ↦
      let answer : lookup_own name c ≡ some (c, parents_heap_var h.index) = ground arith in
      rw answer
        (n, (h.index, refl, find_heap_var-HasHeapVar name c.my_heap_vars h n.heap_vars found))
  | inl new ↦ elim (Option-cases (find_var name c.locals)) [
    | inr (v, found) ↦
        let answer : lookup_own name c ≡ some (promote_local name v c) = ground arith in
        let (numbered, has) = add_heap_var-HasHeapVar name (local v.index) c n.heap_vars in
        let locals = mark_promoted-VarsFrom name (length c.my_heap_vars + 1) 1 c.locals n.locals in
        rw answer (
          record { heap_vars = numbered; args = n.args; locals = locals },
          (length c.my_heap_vars + 1, refl, has),
        )
    | inl no_local ↦ elim (Option-cases (find_var name c.args)) [
      | inr (v, found) ↦
          let answer : lookup_own name c ≡ some (promote_argument name v c) = ground arith in
          let (numbered, has) = add_heap_var-HasHeapVar name (argument v.index) c n.heap_vars in
          let args = mark_promoted-VarsFrom name (length c.my_heap_vars + 1) 1 c.args n.args in
          rw answer (
            record { heap_vars = numbered; args = args; locals = n.locals },
            (length c.my_heap_vars + 1, refl, has),
          )
      | inl no_arg ↦ let answer : lookup_own name c ≡ none = ground arith in rw answer tt
    ]
  ]
]

-- A lookup for an inner block.
abbrev SeenOuter : Name → List Var → Scope × Resolved → Type 0
SeenOuter name ivars (s, r) = AllNumbered s × (ivars_of s ≡ ivars) × SeenFromBlock name s r

pub Own-SeenOuter :
    (name : Name) (ivars : List Var) (rest : CodeScope → Scope)
    → ((c : CodeScope) → IsNumbered c → AllNumbered (rest c))
    → ((c : CodeScope) → (ivars_of (rest c) ≡ ivars) × (top (rest c) ≡ c))
    → (c : CodeScope) (r : Resolved) → Own name (some (c, r))
    → SeenOuter name ivars (rest c, r)
Own-SeenOuter name ivars rest numbered shape c r (n, (i, e, has)) =
    (numbered c n, (shape c).0, rw e (rw (shape c).1 has))

pub adopt-SeenOuter :
    (name : Name) (c : CodeScope) (o : Scope × Resolved) (ivars : List Var)
    → IsNumbered c
    → SeenOuter name ivars o
    → SeenOuter name ivars (adopt name c o)
unfolding adopt promote_parents
adopt-SeenOuter name c (p, parents_heap_var j) ivars n (np, e, seen) =
    let (numbered, has) = add_heap_var-HasHeapVar name (parents_heap_var j) c n.heap_vars in
    ((record { heap_vars = numbered; args = n.args; locals = n.locals }, np), e, has)
adopt-SeenOuter name c (p, instance_var j) ivars n (np, e, seen) = ((n, np), e, seen)
adopt-SeenOuter name c (p, global g) ivars n (np, e, seen) = ((n, np), e, seen)
adopt-SeenOuter name c (p, r) ivars n (np, e, seen) = absurd seen
