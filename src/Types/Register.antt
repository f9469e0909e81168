-- ===== src/Types/Register.antt =====
-- The registration of types, which comes before the check: `Type::resolveInTyEnv`, `Type::registerIVars`,
-- `TyChecker::findOrCreateClass` and the methods `typeReg` of methods and classes in cmd/vm/Typecheck.cc.
use valutron.Prelude.{
  ℕ, zero, suc, Bool, true, false, none, some, List, [], ◌∷◌, length, ◌==◌, if◌then◌else◌,
}
use valutron.Outcome.{runs_on}
use valutron.CodeGen.{Name}
use valutron.Scope.{name_eq}
use valutron.Tree.Syntax.{self}
use valutron.Types.Store.{
  Addr, Kind, Frame, TyEnv, MethodNode, M, pure, ◌>>=◌, ◌>>◌, get, require, set_decl, set_class,
  new_type, plain, lookup_var, lookup_type,
}
use valutron.Types.Invocation.{Invocation, register, construct_into, type_in_invocation}

-- `Type::makeTyVarReference`, for each type parameter, as it is entered in the types of an environment.
unfoldable pub ty_var_references : List Addr → M (List (Name × Addr))
ty_var_references [] = pure []
ty_var_references (d ∷ ds) = do
  s ← get
  t ← new_type (record (plain Kind.ty_var) { name = (s.decls d).first; ty_var_decl = d })
  rest ← ty_var_references ds
  pure (((s.decls d).first, t) ∷ rest)

-- `std::map::operator[]` on the left of an assignment.
unfoldable pub assign : Name → Addr → List (Name × Addr) → List (Name × Addr)
unfolding name_eq
assign name a [] = (name, a) ∷ []
assign name a ((k, b) ∷ rest) =
    if name_eq k name then (name, a) ∷ rest else (k, b) ∷ assign name a rest

-- The type parameters in the order in which they are entered.
unfoldable pub as_map : List (Name × Addr) → List (Name × Addr) → List (Name × Addr)
unfolding assign
as_map [] m = m
as_map ((name, a) ∷ rest) m = as_map rest (assign name a m)

unfoldable pub resolve_each : (Addr → M (Unit {0})) → List Addr → M (Unit {0})
resolve_each resolve [] = pure tt
resolve_each resolve (a ∷ rest) = do resolve a; resolve_each resolve rest

-- By the kind of the type. A name that is not found is thrown.
unfoldable pub resolve_by : (TyEnv → Addr → M (Unit {0})) → TyEnv → Kind → Addr → M (Unit {0})
unfolding lookup_type construct_into ty_var_references as_map resolve_each
resolve_by resolve env Kind.ident a = do
  s ← get
  type ← require (lookup_type env (s.types a).name)
  resolve env type
  construct_into type a
  s ← get
  resolve_each (resolve env) (s.types a).type_args
resolve_by resolve env Kind.block a = do
  s ← get
  let blk = s.blocks (s.types a).type_block
  types ← ty_var_references blk.ty_params
  let frame : Frame = record { vars = []; types = as_map types []; enclosing = 0 }
  resolve_each (resolve (frame ∷ env)) blk.arg_types
  resolve (frame ∷ env) blk.ret_type
resolve_by resolve env Kind.union a = do s ← get; resolve_each (resolve env) (s.types a).members
resolve_by resolve env _ a = pure tt

-- `Type::resolveInTyEnv`. The fuel bounds the depth of the type.
unfoldable pub resolve_in_ty_env : ℕ → TyEnv → Addr → M (Unit {0})
unfolding resolve_by
resolve_in_ty_env zero env a s = runs_on
resolve_in_ty_env (suc n) env a s = resolve_by (resolve_in_ty_env n) env (s.types a).kind a s

-- "id"
abbrev id_name : Name
id_name = b'i' ∷ b'd' ∷ []

unfoldable pub resolve_or_id : ℕ → TyEnv → Addr → M Addr
unfolding resolve_in_ty_env
resolve_or_id n env a =
    let resolved : M Addr = (do resolve_in_ty_env n env a; pure a) in
    if a == 0 then new_type (record (plain Kind.id) { name = id_name }) else resolved

unfoldable pub resolve_or_uninferred : ℕ → TyEnv → Addr → M Addr
unfolding resolve_in_ty_env
resolve_or_uninferred n env a =
    let resolved : M Addr = (do resolve_in_ty_env n env a; pure a) in
    if a == 0 then new_type (plain Kind.as_yet_unspecified) else resolved

-- A loop over declarations: the type of each is resolved, and the name is entered in the variables.
unfoldable pub declare_each :
    (Addr → M Addr) → List Addr → List (Name × Addr) → M (List (Name × Addr))
unfolding assign
declare_each resolve [] vars = pure vars
declare_each resolve (d ∷ ds) vars = do
  s ← get
  t ← resolve (s.decls d).second
  s ← get
  set_decl d (record (s.decls d) { second = t })
  declare_each resolve ds (assign (s.decls d).first t vars)

-- `MethodNode::typeReg`, in the class `cls`: the method, and the environment in which its body is checked.
unfoldable pub method_type_reg : ℕ → Addr → MethodNode → List Addr → TyEnv → M (MethodNode × TyEnv)
unfolding ty_var_references as_map resolve_or_id resolve_or_uninferred declare_each
method_type_reg n cls meth locals env = do
  types ← ty_var_references meth.ty_params
  let inner : Frame = record { vars = []; types = as_map types []; enclosing = 0 }
  ret ← resolve_or_id n (inner ∷ env) meth.ret_type
  vars ← declare_each (resolve_or_id n (inner ∷ env)) meth.args []
  vars ← declare_each (resolve_or_uninferred n (inner ∷ env)) locals vars
  s ← get
  pure (
    record meth { ret_type = ret },
    record inner { vars = assign self (s.classes cls).nst_master_type vars } ∷ env,
  )

-- The variables of one class, as an invocation sees their types.
unfoldable pub add_each :
    (Addr → M Addr) → List (Name × Addr) → List (Name × Addr) → M (List (Name × Addr))
unfolding assign
add_each in_invocation [] vars = pure vars
add_each in_invocation ((name, a) ∷ rest) vars = do
  t ← in_invocation a
  add_each in_invocation rest (assign name t vars)

-- `Type::registerIVars`. `depth` bounds the depth of types, the fuel the number of superclasses.
unfoldable pub register_ivars :
    ℕ → ℕ → Addr → List (Addr × Addr) → Addr → List (Name × Addr) → M (List (Name × Addr))
unfolding add_each type_in_invocation register
register_ivars depth zero master own a vars s = runs_on
register_ivars depth (suc n) master own a vars s =
    let cls = s.classes (s.types a).cls in
    let invoc : Invocation = record {
      receiver = master;
      true_receiver = master;
      ty_param_maps = own ∷ [];
    } in
    (do
      vars ← add_each (type_in_invocation depth invoc) cls.vars vars
      s ← get
      let sup = s.types cls.super_type
      let above : M (List (Name × Addr)) = do
        own ← require (register (s.classes sup.cls).ty_params sup.type_args own)
        register_ivars depth n master own cls.super_type vars
      if cls.super_type == 0 then pure vars else above)
      s

-- The loop over the methods of a class.
unfoldable pub methods_type_reg :
    ℕ → Addr → List (MethodNode × List Addr) → TyEnv → M (List (MethodNode × TyEnv))
unfolding method_type_reg
methods_type_reg n cls [] env = pure []
methods_type_reg n cls ((meth, locals) ∷ rest) env = do
  m ← method_type_reg n cls meth locals env
  ms ← methods_type_reg n cls rest env
  pure (m ∷ ms)

abbrev nodes : List (MethodNode × TyEnv) → List MethodNode
nodes [] = []
nodes ((m, env) ∷ rest) = m ∷ nodes rest

-- The variables that a class has of the classes above it. Without a superclass it has none.
unfoldable pub inherited : ℕ → ℕ → Addr → Bool → TyEnv → M (List (Name × Addr))
unfolding resolve_in_ty_env register_ivars
inherited depth n cls has_super env =
    let from_super : M (List (Name × Addr)) = (do
      s ← get
      let node = s.classes cls
      resolve_in_ty_env depth env node.super_type
      s ← get
      let sup = s.types node.super_type
      set_class cls (record (s.classes cls) { super_class = sup.cls })
      own ← require (register (s.classes sup.cls).ty_params sup.type_args [])
      register_ivars depth n node.nst_master_type own node.super_type []) in
    let root : M (List (Name × Addr)) = (do
      s ← get
      set_class cls (record (s.classes cls) { super_type = 0; super_class = 0 })
      pure []) in
    if has_super then from_super else root

-- `ClassNode::typeReg`: the environments of the class methods and of the instance methods, each with those of the
-- class below.
unfoldable pub class_type_reg :
    ℕ
    → ℕ
    → Addr
    → Bool
    → List Addr
    → List (MethodNode × List Addr)
    → List (MethodNode × List Addr)
    → TyEnv
    → M (List (MethodNode × TyEnv) × List (MethodNode × TyEnv))
unfolding ty_var_references as_map inherited declare_each resolve_or_id methods_type_reg
class_type_reg depth n cls has_super i_vars c_methods i_methods globals = do
  s ← get
  types ← ty_var_references (s.classes cls).ty_params
  let inner : Frame = record { vars = []; types = as_map types []; enclosing = cls }
  vars ← inherited depth n cls has_super (inner ∷ globals)
  vars ← declare_each (resolve_or_id depth (inner ∷ globals)) i_vars vars
  s ← get
  set_class cls (record (s.classes cls) { vars = vars })
  let env : TyEnv = record inner { vars = vars } ∷ globals
  cs ← methods_type_reg depth cls c_methods env
  is ← methods_type_reg depth cls i_methods env
  s ← get
  set_class cls (record (s.classes cls) { c_methods = nodes cs; i_methods = nodes is })
  pure (cs, is)

abbrev named_types : List (Name × Addr) → List Addr
named_types [] = []
named_types ((name, a) ∷ rest) = a ∷ named_types rest

-- `Type::makeInstanceMaster`.
unfoldable pub make_instance_master : Addr → Name → List Addr → M Addr
unfolding ty_var_references
make_instance_master cls name params = do
  refs ← ty_var_references params
  new_type (record (plain Kind.resolved_instance) {
    name = name;
    cls = cls;
    is_constructor = (if length params == 0 then false else true);
    type_args = named_types refs;
  })

is_class : Kind → Bool
is_class Kind.resolved_class = true
is_class _ = false

-- `TyChecker::findOrCreateClass`: the class, and the global environment.
unfoldable pub find_or_create_class : Addr → Name → Frame → M (Addr × Frame)
unfolding lookup_var make_instance_master is_class assign
find_or_create_class cls name globals = do
  s ← get
  let create : M (Addr × Frame) = do
    class_type ← new_type (record (plain Kind.resolved_class) { name = name; cls = cls })
    master ← make_instance_master cls name (s.classes cls).ty_params
    s ← get
    set_class cls (record (s.classes cls) { cls_type = class_type; nst_master_type = master })
    pure (
      cls,
      record globals {
        vars = assign name class_type globals.vars;
        types = assign name master globals.types;
      },
    )
  elim (lookup_var (globals ∷ []) name) [
    | none ↦ create
    | some a ↦ if is_class (s.types a).kind then pure ((s.types a).cls, globals) else create
  ]
