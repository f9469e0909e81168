-- ===== src/Scope/Indices.antt =====
-- Indices of variables, in the scopes of cmd/vm/Synth.cc.
use valutron.Prelude.{
  ℕ, suc, ◌+◌, ◌-◌, ◌≤◌, ◌≡◌, refl, inl, inr, none, some, List, [], ◌∷◌, ◌++◌, length, arith,
  Option-cases, Bool-cases, get_elem?,
}
use valutron.CodeGen.{Name}
use valutron.Scope.{
  name_eq, Var, HeapEntry, CodeScope, find_heap_var, find_var, add_ivar, add_arg, add_local,
  mark_promoted,
}
use valutron.Scope.Names.{name_eq_sound}

abbrev pub VarsFrom : ℕ → List Var → Type 0
VarsFrom k [] = Unit
VarsFrom k (v ∷ vs) = (v.index ≡ k) × VarsFrom (k + 1) vs

abbrev pub HeapFrom : ℕ → List HeapEntry → Type 0
HeapFrom k [] = Unit
HeapFrom k (h ∷ hs) = (h.index ≡ k) × HeapFrom (k + 1) hs

pub record IsNumbered (c : CodeScope) : Type 0 where
  pub heap_vars : HeapFrom 1 c.my_heap_vars
  pub args : VarsFrom 1 c.args
  pub locals : VarsFrom 1 c.locals

-- The variable of that name, at that index.
abbrev pub HasVar : Name → List Var → ℕ → Type 0
HasVar name vs i = (v : Var) × (get_elem? vs (i - 1) ≡ some v) × (v.index ≡ i) × (v.name ≡ name)

abbrev pub HasHeapVar : Name → List HeapEntry → ℕ → Type 0
HasHeapVar name hs i =
    (h : HeapEntry) × (get_elem? hs (i - 1) ≡ some h) × (h.index ≡ i) × (h.name ≡ name)

VarsFrom-append :
    (k : ℕ) (vs : List Var) (v : Var)
    → VarsFrom k vs
    → v.index ≡ k + length vs
    → VarsFrom k (vs ++ v ∷ [])
VarsFrom-append k [] v h e = (omega arith, tt)
VarsFrom-append k (x ∷ vs) v h e = (h.0, VarsFrom-append (k + 1) vs v h.1 (omega arith))

pub HeapFrom-append :
    (k : ℕ) (hs : List HeapEntry) (h : HeapEntry)
    → HeapFrom k hs
    → h.index ≡ k + length hs
    → HeapFrom k (hs ++ h ∷ [])
HeapFrom-append k [] h n e = (omega arith, tt)
HeapFrom-append k (x ∷ hs) h n e = (n.0, HeapFrom-append (k + 1) hs h n.1 (omega arith))

find_var-from :
    (name : Name) (k : ℕ) (vs : List Var) (v : Var)
    → VarsFrom k vs
    → find_var name vs ≡ some v
    → (k ≤ v.index) × (get_elem? vs (v.index - k) ≡ some v) × (v.name ≡ name)
unfolding find_var
find_var-from name k [] v n found = absurd (ground arith)
find_var-from name k (x ∷ vs) v n found = elim (Bool-cases (name_eq x.name name)) [
  | inl here ↦
      let same : v ≡ x = ground arith in
      let zeroth : x.index - k ≡ 0 = omega arith in
      rw same (omega arith, rw zeroth, name_eq_sound x.name name here)
  | inr there ↦
      let (le, got, named) = find_var-from name (k + 1) vs v n.1 (ground arith) in
      let next : v.index - k ≡ suc (v.index - (k + 1)) = omega arith in
      (omega arith, rw next got, named)
]

find_heap_var-from :
    (name : Name) (k : ℕ) (hs : List HeapEntry) (h : HeapEntry)
    → HeapFrom k hs
    → find_heap_var name hs ≡ some h
    → (k ≤ h.index) × (get_elem? hs (h.index - k) ≡ some h) × (h.name ≡ name)
unfolding find_heap_var
find_heap_var-from name k [] h n found = absurd (ground arith)
find_heap_var-from name k (x ∷ hs) h n found = elim (Bool-cases (name_eq x.name name)) [
  | inl here ↦
      let same : h ≡ x = ground arith in
      let zeroth : x.index - k ≡ 0 = omega arith in
      rw same (omega arith, rw zeroth, name_eq_sound x.name name here)
  | inr there ↦
      let (le, got, named) = find_heap_var-from name (k + 1) hs h n.1 (ground arith) in
      let next : h.index - k ≡ suc (h.index - (k + 1)) = omega arith in
      (omega arith, rw next got, named)
]

-- A variable that is found stands where its index says.
pub find_var-HasVar :
    (name : Name) (vs : List Var) (v : Var)
    → VarsFrom 1 vs
    → find_var name vs ≡ some v
    → HasVar name vs v.index
find_var-HasVar name vs v n found =
    let (le, got, named) = find_var-from name 1 vs v n found in (v, got, refl, named)

pub find_heap_var-HasHeapVar :
    (name : Name) (hs : List HeapEntry) (h : HeapEntry)
    → HeapFrom 1 hs
    → find_heap_var name hs ≡ some h
    → HasHeapVar name hs h.index
find_heap_var-HasHeapVar name hs h n found =
    let (le, got, named) = find_heap_var-from name 1 hs h n found in (h, got, refl, named)

pub mark_promoted-VarsFrom :
    (name : Name) (i k : ℕ) (vs : List Var) → VarsFrom k vs → VarsFrom k (mark_promoted name i vs)
unfolding mark_promoted
mark_promoted-VarsFrom name i k [] h = tt
mark_promoted-VarsFrom name i k (v ∷ vs) h =
    ground (arith, mark_promoted-VarsFrom name i (k + 1) vs h.1)

-- Declaring an argument keeps the numbering.
pub add_arg-IsNumbered : (name : Name) (c : CodeScope) → IsNumbered c → IsNumbered (add_arg name c)
unfolding add_arg
add_arg-IsNumbered name c n = record {
  heap_vars = n.heap_vars;
  args = VarsFrom-append 1 c.args _ n.args (omega arith);
  locals = n.locals;
}

-- If the variables of a scope are numbered from 1, and the declaration of a local is accepted, then
-- they are numbered from 1 after it.
pub add_local-IsNumbered :
    (name : Name) (c c' : CodeScope) → IsNumbered c → add_local name c ≡ some c' → IsNumbered c'
unfolding add_local
add_local-IsNumbered name c c' n h = elim (Option-cases (find_var name c.locals)) [
  | inr (v, taken) ↦ absurd (ground arith)
  | inl free ↦
      let v : Var = record { name = name; index = length c.locals + 1; promoted = none } in
      let same : c' ≡ record c { locals = c.locals ++ v ∷ [] } = ground arith in
      rw same (record {
        heap_vars = n.heap_vars;
        args = n.args;
        locals = VarsFrom-append 1 c.locals v n.locals (omega arith);
      })
]

-- So does the declaration of an instance variable.
pub add_ivar-VarsFrom :
    (name : Name) (ivars : List Var) → VarsFrom 1 ivars → VarsFrom 1 (add_ivar name ivars)
unfolding add_ivar
add_ivar-VarsFrom name ivars n = VarsFrom-append 1 ivars _ n (omega arith)
