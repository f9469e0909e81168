-- ===== src/Scope.antt =====
-- Scopes of the compiler: cmd/vm/Synth.cc and the scope classes of AST.hh. A variable object is shared
-- by its scope and by the nodes that name it; here the scope holds it and a node keeps its kind and index.
pub mod Names
pub mod Indices
pub mod Promotion
pub mod Visible
pub mod Resolution
use valutron.Prelude.{
  ℕ, zero, suc, ◌+◌, ◌≡◌, Bool, true, false, ◌&&◌, Option, none, some, List, [], ◌∷◌, ◌++◌, length,
  ◌==◌, if◌then◌else◌,
}
use valutron.CodeGen.{Name}

-- Equality of two `std::string`s.
unfoldable pub name_eq : Name → Name → Bool
name_eq [] [] = true
name_eq [] (d ∷ b) = false
name_eq (c ∷ a) [] = false
name_eq (c ∷ a) (d ∷ b) = (c == d) && name_eq a b

-- A local, argument or instance variable. `promoted` is the (1-based) heap variable that it was moved to.
pub record Var : Type 0 where
  pub name : Name
  pub index : ℕ
  pub promoted : Option ℕ

-- What a name stands for, in the scope where it is looked up.
pub data Resolved : Type 0 where
  heap_var : ℕ → Resolved
  parents_heap_var : ℕ → Resolved
  local : ℕ → Resolved
  argument : ℕ → Resolved
  instance_var : ℕ → Resolved
  global : Name → Resolved

-- A heap variable of a scope, with the variable that it was made from.
pub record HeapEntry : Type 0 where
  pub name : Name
  pub index : ℕ
  pub origin : Resolved

-- `AbstractCodeScope`.
pub record CodeScope : Type 0 where
  pub my_heap_vars : List HeapEntry
  pub args : List Var
  pub locals : List Var

-- A method's scope in its class, given by the class's instance variables, or a block's in its parent.
pub data Scope : Type 0 where
  method_scope : CodeScope → List Var → Scope
  block_scope : CodeScope → Scope → Scope

abbrev pub empty_code_scope : CodeScope
empty_code_scope = record { my_heap_vars = []; args = []; locals = [] }

unfoldable pub find_var : Name → List Var → Option Var
unfolding name_eq
find_var name [] = none
find_var name (v ∷ vs) = if name_eq v.name name then some v else find_var name vs

unfoldable pub find_heap_var : Name → List HeapEntry → Option HeapEntry
unfolding name_eq
find_heap_var name [] = none
find_heap_var name (v ∷ vs) = if name_eq v.name name then some v else find_heap_var name vs

-- `ClassScope::lookup`, which falls back to a global variable.
unfoldable pub class_lookup : Name → List Var → Resolved
unfolding find_var
class_lookup name ivars = elim (find_var name ivars) [
  | some v ↦ instance_var v.index
  | none ↦ global name
]

unfoldable pub add_ivar : Name → List Var → List Var
add_ivar name ivars =
    ivars ++ record { name = name; index = length ivars + 1; promoted = none } ∷ []

unfoldable pub add_arg : Name → CodeScope → CodeScope
add_arg name c = record c {
  args = c.args ++ record { name = name; index = length c.args + 1; promoted = none } ∷ [];
}

-- `none`: the name is taken by another local, and the compiler aborts.
unfoldable pub add_local : Name → CodeScope → Option CodeScope
unfolding find_var
add_local name c =
    let v : Var = record { name = name; index = length c.locals + 1; promoted = none } in
    elim (find_var name c.locals) [
      | some l ↦ none
      | none ↦ some (record c { locals = c.locals ++ v ∷ [] })
    ]

-- The first variable of that name gets its promoted index.
unfoldable pub mark_promoted : Name → ℕ → List Var → List Var
unfolding name_eq
mark_promoted name i [] = []
mark_promoted name i (v ∷ vs) =
    if name_eq v.name name then record v { promoted = some i } ∷ vs else v ∷ mark_promoted name i vs

-- `promote`: a new heap variable behind the others. The result is its index in the eyes of a child.
unfoldable pub add_heap_var : Name → Resolved → CodeScope → CodeScope
add_heap_var name origin c = record c {
  my_heap_vars =
      c.my_heap_vars
      ++ record { name = name; index = length c.my_heap_vars + 1; origin = origin } ∷ [];
}

unfoldable pub promote_local : Name → Var → CodeScope → CodeScope × Resolved
unfolding add_heap_var mark_promoted
promote_local name v c =
    let i = length c.my_heap_vars + 1 in
    (
      record (add_heap_var name (local v.index) c) { locals = mark_promoted name i c.locals },
      parents_heap_var i,
    )

unfoldable pub promote_argument : Name → Var → CodeScope → CodeScope × Resolved
unfolding add_heap_var mark_promoted
promote_argument name v c =
    let i = length c.my_heap_vars + 1 in
    (
      record (add_heap_var name (argument v.index) c) { args = mark_promoted name i c.args },
      parents_heap_var i,
    )

unfoldable pub promote_parents : Name → ℕ → CodeScope → CodeScope × Resolved
unfolding add_heap_var
promote_parents name j c =
    (add_heap_var name (parents_heap_var j) c, parents_heap_var (length c.my_heap_vars + 1))

-- The loops that `lookupFromBlock` makes over a scope's own variables; `none` if it has none of that name.
unfoldable pub lookup_own : Name → CodeScope → Option (CodeScope × Resolved)
unfolding find_heap_var find_var promote_local promote_argument
lookup_own name c = elim (find_heap_var name c.my_heap_vars) [
  | some h ↦ some (c, parents_heap_var h.index)
  | none ↦ elim (find_var name c.locals) [
    | some v ↦ some (promote_local name v c)
    | none ↦ elim (find_var name c.args) [ some v ↦ some (promote_argument name v c) | none ↦ none ]
  ]
]

-- A variable of the parent's heap is copied into a block's own.
unfoldable pub adopt : Name → CodeScope → Scope × Resolved → Scope × Resolved
unfolding promote_parents
adopt name c (p, parents_heap_var j) =
    let (c', r) = promote_parents name j c in (block_scope c' p, r)
adopt name c (p, r) = (block_scope c p, r)

-- `lookupFromBlock` of `MethodScope` and of `BlockScope`: a lookup on behalf of an inner block.
unfoldable pub lookup_from_block : Name → Scope → Scope × Resolved
unfolding lookup_own class_lookup adopt
lookup_from_block name (method_scope c ivars) = elim (lookup_own name c) [
  | some (c', r) ↦ (method_scope c' ivars, r)
  | none ↦ (method_scope c ivars, class_lookup name ivars)
]
lookup_from_block name (block_scope c p) =
    let outer = adopt name c (lookup_from_block name p) in
    elim (lookup_own name c) [ some (c', r) ↦ (block_scope c' p, r) | none ↦ outer ]

-- `lookup` of `MethodScope` and of `BlockScope`: a lookup by code of the scope itself.
unfoldable pub lookup : Name → Scope → Scope × Resolved
unfolding find_heap_var find_var class_lookup lookup_from_block
lookup name (method_scope c ivars) = elim (find_var name c.locals) [
  | some v ↦ (method_scope c ivars, local v.index)
  | none ↦ elim (find_var name c.args) [
    | some v ↦ (method_scope c ivars, argument v.index)
    | none ↦ (method_scope c ivars, class_lookup name ivars)
  ]
]
lookup name (block_scope c p) = elim (find_heap_var name c.my_heap_vars) [
  | some h ↦ (block_scope c p, heap_var h.index)
  | none ↦ elim (find_var name c.args) [
    | some v ↦ (block_scope c p, argument v.index)
    | none ↦ elim (find_var name c.locals) [
      | some v ↦ (block_scope c p, local v.index)
      | none ↦ let (p', r) = lookup_from_block name p in (block_scope c p', r)
    ]
  ]
]
