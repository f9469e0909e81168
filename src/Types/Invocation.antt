-- ===== src/Types/Invocation.antt =====
-- Types as an invocation sees them: `Invocation::tyParam`, `Type::constructInto` and
-- `Type::typeInInvocation` of cmd/vm/Typecheck.cc.
use valutron.Prelude.{ℕ, zero, suc, Option, none, some, List, [], ◌∷◌, length, ◌==◌, if◌then◌else◌}
use valutron.Outcome.{runs_on}
use valutron.Types.Store.{
  Addr, Kind, Ty, M, pure, ◌>>=◌, ◌>>◌, die, get, require, set_type, set_block, new_type, new_block,
  plain,
}

-- The type variables of `tyParamMap`, the invocation's own and then those of `m_super`.
pub record Invocation : Type 0 where
  pub receiver : Addr
  pub true_receiver : Addr
  pub ty_param_maps : List (List (Addr × Addr))

unfoldable pub find_decl : Addr → List (Addr × Addr) → Option Addr
find_decl d [] = none
find_decl d ((k, a) ∷ rest) = if k == d then some a else find_decl d rest

-- `Invocation::tyParam`.
unfoldable pub ty_param : List (List (Addr × Addr)) → Addr → Option Addr
unfolding find_decl
ty_param [] d = none
ty_param (own ∷ super) d =
    let outer = ty_param super d in elim (find_decl d own) [ some a ↦ some a | none ↦ outer ]

-- `invoc.tyParamMap[&cls->m_tyParams[i]] = typeArgs[i]` for each type argument.
unfoldable pub register : List Addr → List Addr → List (Addr × Addr) → Option (List (Addr × Addr))
register params [] own = some own
register [] (a ∷ args) own = none
register (p ∷ params) (a ∷ args) own = register params args ((p, a) ∷ own)

unfoldable pub new_types : ℕ → M (List Addr)
new_types zero = pure []
new_types (suc n) = do
  a ← new_type (plain Kind.as_yet_unspecified)
  rest ← new_types n
  pure (a ∷ rest)

-- The type arguments of an instance type that is constructed.
unfoldable pub fresh_args : List Addr → List Addr → M (List Addr)
unfolding new_types
fresh_args [] args = new_types (length args)
fresh_args (a ∷ into) args = if length (a ∷ into) == length args then pure (a ∷ into) else die

unfoldable pub construct_by : Kind → Ty → Ty → Addr → M (Unit {0})
unfolding fresh_args
construct_by Kind.resolved_instance t r into = do
  args ← fresh_args r.type_args t.type_args
  set_type into
      (record r { name = t.name; cls = t.cls; kind = Kind.resolved_instance; type_args = args })
construct_by Kind.ty_var t r into =
    set_type into (record r { name = t.name; kind = Kind.ty_var; ty_var_decl = t.ty_var_decl })
construct_by _ t r into = die

-- `Type::constructInto`.
unfoldable pub construct_into : Addr → Addr → M (Unit {0})
unfolding construct_by
construct_into a into = do s ← get; construct_by (s.types a).kind (s.types a) (s.types into) into

-- A loop that puts a new type in the place of each.
unfoldable pub map_types : (Addr → M Addr) → List Addr → M (List Addr)
map_types f [] = pure []
map_types f (a ∷ rest) = do b ← f a; bs ← map_types f rest; pure (b ∷ bs)

-- `TyBlock::deepCopy`: the argument types and the return type are copied, but not what they refer to.
unfoldable pub deep_copy : Addr → M Addr
unfolding map_types
deep_copy b = do
  s ← get
  copy ← new_block (s.blocks b)
  args ← map_types (λ arg. do s ← get; new_type (s.types arg)) (s.blocks b).arg_types
  s ← get
  ret ← new_type (s.types (s.blocks b).ret_type)
  set_block copy (record (s.blocks b) { arg_types = args; ret_type = ret })
  pure copy

-- `Type::blockCopyIfNecessary`.
unfoldable pub block_copy_by : Kind → Addr → M Addr
unfolding deep_copy
block_copy_by Kind.block a = do
  s ← get
  t ← new_type (s.types a)
  b ← deep_copy (s.types a).type_block
  set_type t (record (s.types a) { type_block = b })
  pure t
block_copy_by _ a = pure a

unfoldable pub block_copy_if_necessary : Addr → M Addr
unfolding block_copy_by
block_copy_if_necessary a = do s ← get; block_copy_by (s.types a).kind a

-- The cases of `typeInInvocation`, over the calls for the parts of the type.
unfoldable pub in_invocation_by : (Addr → M Addr) → Invocation → Kind → Addr → M Addr
unfolding construct_into map_types deep_copy ty_param
in_invocation_by parts invoc Kind.union a = do
  s ← get
  t ← new_type (s.types a)
  members ← map_types parts (s.types a).members
  set_type t (record (s.types a) { members = members })
  pure t
in_invocation_by parts invoc Kind.block a = do
  s ← get
  t ← new_type (s.types a)
  b ← deep_copy (s.types a).type_block
  set_type t (record (s.types a) { type_block = b })
  s ← get
  args ← map_types parts (s.blocks b).arg_types
  ret ← parts (s.blocks b).ret_type
  s ← get
  set_block b (record (s.blocks b) { arg_types = args; ret_type = ret })
  pure t
in_invocation_by parts invoc Kind.self a = pure invoc.receiver
in_invocation_by parts invoc Kind.instance_type a = do
  t ← new_type (plain Kind.as_yet_unspecified)
  s ← get
  let cls = (s.types invoc.true_receiver).cls
  if cls == 0 then die else construct_into (s.classes cls).nst_master_type t
  pure t
in_invocation_by parts invoc Kind.id a = pure a
in_invocation_by parts invoc Kind.ty_var a = do
  s ← get
  require (ty_param invoc.ty_param_maps (s.types a).ty_var_decl)
in_invocation_by parts invoc Kind.resolved_class a = pure a
in_invocation_by parts invoc Kind.resolved_instance a = do
  s ← get
  t ← new_type (s.types a)
  args ← map_types parts (s.types a).type_args
  set_type t (record (s.types a) { type_args = args })
  pure t
in_invocation_by parts invoc Kind.as_yet_unspecified a = pure a
in_invocation_by parts invoc Kind.super a = die
in_invocation_by parts invoc Kind.ident a = die

-- `Type::typeInInvocation`. The fuel bounds the depth of the type.
unfoldable pub type_in_invocation : ℕ → Invocation → Addr → M Addr
unfolding in_invocation_by
type_in_invocation zero invoc a s = runs_on
type_in_invocation (suc n) invoc a s =
    in_invocation_by (type_in_invocation n invoc) invoc (s.types a).kind a s
