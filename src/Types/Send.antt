-- ===== src/Types/Send.antt =====
-- `Type::typeSend` of cmd/vm/Typecheck.cc.
use valutron.Prelude.{
  ℕ, zero, suc, Bool, true, false, Option, none, some, List, [], ◌∷◌, ◌==◌, if◌then◌else◌,
}
use valutron.Outcome.{runs_on}
use valutron.CodeGen.{Name}
use valutron.Scope.{name_eq}
use valutron.Tree.Syntax.{self}
use valutron.Types.Store.{
  Addr, Kind, MethodNode, TyEnv, M, pure, ◌>>=◌, ◌>>◌, die, get, require, set_type, new_type, plain,
  complain, not_subtype, not_understood, unknown_receiver, lookup_var,
}
use valutron.Types.Invocation.{
  Invocation, register, map_types, type_in_invocation, block_copy_if_necessary,
}

-- The search for a method goes through the whole list, and the last of that selector stays.
unfoldable pub find_method : Name → List MethodNode → Option MethodNode
unfolding name_eq
find_method selector [] = none
find_method selector (m ∷ ms) =
    let found = (if name_eq m.sel selector then some m else none) in
    elim (find_method selector ms) [ some later ↦ some later | none ↦ found ]

-- `Type::id`.
abbrev pub new_id : M Addr
new_id = new_type (plain Kind.id)

-- The type variables of a generic method, each with a new type.
unfoldable pub register_new : List Addr → List (Addr × Addr) → M (List (Addr × Addr))
register_new [] own = pure own
register_new (p ∷ params) own = do
  t ← new_type (plain Kind.as_yet_unspecified)
  register_new params ((p, t) ∷ own)

-- `typeSend`, with its arguments but the environment and the types of the arguments.
pub record Send : Type 0 where
  pub to : Addr
  pub selector : Name
  pub true_receiver : Addr
  pub previous : List (List (Addr × Addr))
  pub skip_first : Bool

module _ (sub : Addr → Addr → M Bool) (in_invocation : Invocation → Addr → M Addr) where
  -- The arguments of the message against those of the method. To a class, blocks are not copied, and the
  -- receiver stands in the complaint.
  unfoldable pub check_args : Bool → Addr → Invocation → List Addr → List Addr → M (Unit {0})
  unfolding block_copy_if_necessary
  check_args to_class receiver invoc formals [] = pure tt
  check_args to_class receiver invoc [] (actual ∷ actuals) = die
  check_args to_class receiver invoc (decl ∷ formals) (actual ∷ actuals) = do
    s ← get
    formal ← in_invocation invoc (s.decls decl).second
    actual ← if to_class then pure actual else block_copy_if_necessary actual
    holds ← sub actual formal
    if holds then pure tt else complain (not_subtype (if to_class then receiver else actual) formal)
    check_args to_class receiver invoc formals actuals

  module _ (env : TyEnv) (arg_types : List Addr) (send : Send → M Addr) where
    -- The receiver is an instance.
    unfoldable pub send_to_instance : Send → M Addr
    unfolding find_method register register_new check_args
    send_to_instance m = do
      s ← get
      let recv = s.types m.to
      let cls = s.classes recv.cls
      own ← require (register cls.ty_params recv.type_args [])
      let invoc : Invocation = record {
        receiver = m.true_receiver;
        true_receiver = m.true_receiver;
        ty_param_maps = own ∷ m.previous;
      }
      let misunderstood : M Addr = do complain (not_understood m.true_receiver m.selector); new_id
      let above : M Addr = do
        sup ← in_invocation invoc cls.super_type
        send (record m { to = sup; previous = invoc.ty_param_maps; skip_first = false })
      elim (if m.skip_first then none else find_method m.selector cls.i_methods) [
        | none ↦ if cls.super_class == 0 then misunderstood else above
        | some meth ↦ do
          own ← register_new meth.ty_params own
          let invoc : Invocation = record invoc { ty_param_maps = own ∷ m.previous }
          check_args false m.to invoc meth.args arg_types
          in_invocation invoc meth.ret_type
      ]

    -- The receiver is a class.
    unfoldable pub send_to_class : Send → M Addr
    unfolding find_method check_args
    send_to_class m = do
      s ← get
      let cls = s.classes (s.types m.to).cls
      let invoc : Invocation = record {
        receiver = m.to;
        true_receiver = m.true_receiver;
        ty_param_maps = [] ∷ m.previous;
      }
      let misunderstood : M Addr = do complain (not_understood m.to m.selector); new_id
      let above : M Addr = send (record m {
        to = (s.classes cls.super_class).cls_type;
        previous = invoc.ty_param_maps;
        skip_first = false;
      })
      elim (find_method m.selector cls.c_methods) [
        | none ↦ if cls.super_class == 0 then misunderstood else above
        | some meth ↦ do
          check_args true m.to invoc meth.args arg_types
          in_invocation invoc meth.ret_type
      ]

    -- By the kind of the receiver.
    unfoldable pub send_by : Kind → Send → M Addr
    unfolding map_types send_to_instance send_to_class lookup_var
    send_by Kind.super m = do
      this ← require (lookup_var env self)
      send (record m { to = this; true_receiver = this; skip_first = true })
    send_by Kind.union m = do
      s ← get
      result ← new_type (plain Kind.as_yet_unspecified)
      members ←
          map_types (λ member. send (record m { to = member; previous = []; skip_first = false }))
            (s.types m.to).members
      set_type result (record (plain Kind.union) { members = members })
      pure result
    send_by Kind.resolved_instance m = send_to_instance m
    send_by Kind.resolved_class m = send_to_class m
    send_by _ m = do complain (unknown_receiver m.selector); new_id

-- `typeSend`, over `isSubtypeOf`. `depth` bounds the depth of types, and the fuel that of the calls.
unfoldable pub type_send : (Addr → Addr → M Bool) → TyEnv → List Addr → ℕ → ℕ → Send → M Addr
unfolding send_by
type_send sub env arg_types depth zero m s = runs_on
type_send sub env arg_types depth (suc n) m s =
    send_by sub (type_in_invocation depth) env arg_types (type_send sub env arg_types depth n)
      (s.types m.to).kind m s
