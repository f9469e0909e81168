-- ===== src/Types/Subtype.antt =====
-- `Type::isSubtypeOf` and `Type::instanceIsSubtypeOfInstance` of cmd/vm/Typecheck.cc. The environment is not
-- passed, for it is not read.
use valutron.Prelude.{ℕ, zero, suc, Bool, true, false, List, [], ◌∷◌, length, ◌==◌, if◌then◌else◌}
use valutron.Outcome.{runs_on}
use valutron.CodeGen.{Name}
use valutron.Scope.{name_eq}
use valutron.Types.Store.{
  Addr, Kind, M, pure, ◌>>=◌, ◌>>◌, die, get, require, set_type, set_block, new_type,
}
use valutron.Types.Invocation.{Invocation, register, type_in_invocation}

-- "%BlockRetType"
abbrev pub block_ret_type : Name
block_ret_type =
    b'%' ∷ b'B' ∷ b'l' ∷ b'o' ∷ b'c' ∷ b'k' ∷ b'R' ∷ b'e' ∷ b't' ∷ b'T' ∷ b'y' ∷ b'p' ∷ b'e' ∷ []

-- `*to = *from; to->m_wasInferred = true`.
unfoldable pub infer_to_be : Addr → Addr → M Bool
infer_to_be to from = do
  s ← get
  set_type to (record (s.types from) { was_inferred = true })
  pure true

-- The parts of `isSubtypeOf`, over the calls that it makes: of itself, of `typeCheckBlock`, and of
-- `typeInInvocation`.
module _ (sub : Addr → Addr → M Bool) where
  -- Every member of a union.
  unfoldable pub all_below : List Addr → Addr → M Bool
  all_below [] b = pure true
  all_below (m ∷ ms) b = do
    let rest = all_below ms b
    holds ← sub m b
    if holds then rest else pure false

  -- Some member of a union.
  unfoldable pub below_any : Addr → List Addr → M Bool
  below_any a [] = pure false
  below_any a (m ∷ ms) = do
    let rest = below_any a ms
    holds ← sub a m
    if holds then pure true else rest

  -- Two vectors of types, place by place; the first gives the number.
  unfoldable pub below_each : List Addr → List Addr → M Bool
  below_each [] bs = pure true
  below_each (a ∷ as') [] = die
  below_each (a ∷ as') (b ∷ bs) = do
    let rest = below_each as' bs
    holds ← sub a b
    if holds then rest else pure false

-- The block case. `unknown` is read before the arguments are compared; the return types are those that the
-- blocks have after that.
unfoldable pub block_below_block :
    (Addr → Addr → M Bool) → (Addr → List Addr → M Addr) → Addr → Addr → M Bool
unfolding below_each name_eq
block_below_block sub type_check_block a b = do
  s ← get
  copy ← new_type (s.types a)
  let rhs = (s.types a).type_block
  let lhs = (s.types b).type_block
  let unknown = name_eq (s.types (s.blocks rhs).ret_type).name block_ret_type
  let infer : M (Unit {0}) = do
    s ← get
    ret ← type_check_block rhs (s.blocks lhs).arg_types
    s ← get
    set_block rhs (record (s.blocks rhs) { ret_type = ret })
  let returns : M Bool = do
    if unknown then infer else pure tt
    s ← get
    sub (s.blocks lhs).ret_type (s.blocks rhs).ret_type
  holds ← below_each sub (s.blocks rhs).arg_types (s.blocks lhs).arg_types
  if holds then returns else pure false

-- `instanceIsSubtypeOfInstance`. The invocation has the other type as receiver.
unfoldable pub instance_is_subtype_of_instance :
    (Addr → Addr → M Bool) → (Invocation → Addr → M Addr) → Addr → Addr → M Bool
unfolding below_each register
instance_is_subtype_of_instance sub in_invocation a b = do
  s ← get
  let own = s.types a
  let other = s.types b
  let cls = s.classes own.cls
  let args : M Bool =
      if length own.type_args == length other.type_args
      then below_each sub own.type_args other.type_args
      else pure false
  let above : M Bool = do
    map ← require (register cls.ty_params own.type_args [])
    sup ←
        in_invocation (record { receiver = b; true_receiver = b; ty_param_maps = map ∷ [] })
          cls.super_type
    sub sup b
  let same : M Bool = if length own.type_args == 0 then pure true else args
  let different : M Bool = if cls.super_class == 0 then pure false else above
  if own.cls == other.cls then same else different

-- What an instance is compared with. `again` is the jump to `test`, with the bound of a type variable.
unfoldable pub below_kind : (Addr → M Bool) → (Addr → M Bool) → Kind → Addr → M Bool
below_kind again rule Kind.self b = pure true
below_kind again rule Kind.instance_type b = pure true
below_kind again rule Kind.id b = pure true
below_kind again rule Kind.ty_var b = do
  s ← get
  let bound = (s.decls (s.types b).ty_var_decl).second
  if bound == 0 then pure true else again bound
below_kind again rule Kind.resolved_class b = pure false
below_kind again rule Kind.resolved_instance b = rule b
below_kind again rule _ b = die

unfoldable pub instance_below : (Addr → M Bool) → ℕ → Addr → M Bool
unfolding below_kind
instance_below rule zero b s = runs_on
instance_below rule (suc n) b s = below_kind (instance_below rule n) rule (s.types b).kind b s

-- The tests of `isSubtypeOf` in their order, by the kinds of the two types.
module _ (sub : Addr → Addr → M Bool) (type_check_block : Addr → List Addr → M Addr)
    (in_invocation : Invocation → Addr → M Addr) (rounds : ℕ) where
  unfoldable pub compare_kinds : Kind → Kind → Addr → Addr → M Bool
  unfolding infer_to_be all_below below_any block_below_block instance_is_subtype_of_instance
      instance_below
  compare_kinds _ Kind.as_yet_unspecified a b = infer_to_be b a
  compare_kinds _ Kind.id a b = pure true
  compare_kinds Kind.id _ a b = pure true
  compare_kinds Kind.block Kind.block a b = block_below_block sub type_check_block a b
  compare_kinds _ Kind.block a b = pure false
  compare_kinds Kind.union _ a b = do s ← get; all_below sub (s.types a).members b
  compare_kinds _ Kind.union a b = do s ← get; below_any sub a (s.types b).members
  compare_kinds Kind.as_yet_unspecified _ a b = infer_to_be a b
  compare_kinds Kind.block _ a b = pure false
  compare_kinds Kind.ty_var _ a b = do
    s ← get
    let bound = (s.decls (s.types a).ty_var_decl).second
    if bound == 0 then pure true else sub bound b
  compare_kinds Kind.resolved_instance _ a b =
      instance_below (instance_is_subtype_of_instance sub in_invocation a) rounds b
  compare_kinds _ _ a b = die

-- `isSubtypeOf`, over `typeCheckBlock`. `depth` bounds the depth of types, and the fuel that of the calls.
unfoldable pub is_subtype_of : (Addr → List Addr → M Addr) → ℕ → ℕ → Addr → Addr → M Bool
unfolding compare_kinds
is_subtype_of type_check_block depth zero a b s = runs_on
is_subtype_of type_check_block depth (suc n) a b s =
    compare_kinds (is_subtype_of type_check_block depth n) type_check_block
      (type_in_invocation depth) (suc n) (s.types a).kind (s.types b).kind a b s

-- `Type::narrow`.
unfoldable pub narrow_by : (Addr → Addr → M Bool) → Kind → Kind → Addr → Addr → M Addr
narrow_by sub Kind.union _ a b = die
narrow_by sub _ Kind.union a b = die
narrow_by sub _ _ a b = do holds ← sub b a; if holds then pure b else die

unfoldable pub narrow : (Addr → Addr → M Bool) → Addr → Addr → M Addr
unfolding narrow_by
narrow sub a b = do s ← get; narrow_by sub (s.types a).kind (s.types b).kind a b
