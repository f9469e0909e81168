-- ===== src/Types/Check.antt =====
-- The types of expressions and the checks of statements: the methods `type`, `fullType` and `typeCheck` of the
-- nodes and `Type::typeCheckBlock` in cmd/vm/Typecheck.cc, and cmd/vm/TypeFlow.cc. A block is typed as for the
-- first time, its arguments have no declared types, and a declaration keeps its place when others are added.
use valutron.Prelude.{ℕ, zero, suc, Bool, false, Option, none, some, List, [], ◌∷◌, if◌then◌else◌}
use valutron.Outcome.{runs_on}
use valutron.CodeGen.{Name}
use valutron.Scope.{name_eq}
use valutron.Tree.Syntax.{
  Expr, Exprs, Messages, Stmts, no_exprs, more_exprs, no_messages, more_messages, no_stmts,
  expr_stmt, return_stmt, super,
}
use valutron.Types.Store.{
  Addr, Kind, Frame, TyEnv, TyChecker, M, pure, ◌>>=◌, ◌>>◌, die, require, new_type, new_decl,
  new_block, plain, complain, not_subtype, lookup_var, lookup_type,
}
use valutron.Types.Subtype.{block_ret_type, is_subtype_of, narrow}
use valutron.Types.Send.{Send, new_id, type_send}

-- "%BlockParam1"
abbrev block_param : Name
block_param = b'%' ∷ b'B' ∷ b'l' ∷ b'o' ∷ b'c' ∷ b'k' ∷ b'P' ∷ b'a' ∷ b'r' ∷ b'a' ∷ b'm' ∷ b'1' ∷ []

abbrev is_kind_of : Name
is_kind_of = b'i' ∷ b's' ∷ b'K' ∷ b'i' ∷ b'n' ∷ b'd' ∷ b'O' ∷ b'f' ∷ b':' ∷ []

abbrev if_true_if_false : Name
if_true_if_false =
    b'i' ∷ b'f' ∷ b'T' ∷ b'r' ∷ b'u' ∷ b'e' ∷ b':' ∷ b'i' ∷ b'f' ∷ b'F' ∷ b'a' ∷ b'l' ∷ b's' ∷ b'e'
    ∷ b':' ∷ []

-- `Type::makeTyVarReference`, for a new declaration without a bound.
unfoldable pub new_ty_var : Name → M (Addr × Addr)
new_ty_var name = do
  d ← new_decl (record { first = name; second = 0 })
  t ← new_type (record (plain Kind.ty_var) { name = name; ty_var_decl = d })
  pure (d, t)

unfoldable pub new_ty_vars : List Name → M (List (Addr × Addr))
unfolding new_ty_var
new_ty_vars [] = pure []
new_ty_vars (arg ∷ args) = do v ← new_ty_var block_param; vs ← new_ty_vars args; pure (v ∷ vs)

abbrev firsts : List (Addr × Addr) → List Addr
firsts [] = []
firsts ((a, b) ∷ rest) = a ∷ firsts rest

abbrev seconds : List (Addr × Addr) → List Addr
seconds [] = []
seconds ((a, b) ∷ rest) = b ∷ seconds rest

-- `BlockExprNode::type`.
unfoldable pub type_of_block : List Name → Stmts → TyChecker → M Addr
unfolding new_ty_vars new_ty_var
type_of_block args stmts tyc = do
  vars ← new_ty_vars args
  (d, ret) ← new_ty_var block_ret_type
  blk ← new_block (record {
    node_args = args;
    node_stmts = stmts;
    node_tyc = tyc;
    ty_params = d ∷ firsts vars;
    ret_type = ret;
    arg_types = seconds vars;
  })
  new_type (record (plain Kind.block) { type_block = blk })

-- `IdentExprNode::type`. A name that is not found is thrown.
unfoldable pub type_of_ident : Name → TyChecker → M Addr
unfolding name_eq lookup_var
type_of_ident id tyc =
    if name_eq id super then new_type (plain Kind.super) else require (lookup_var tyc.env id)

-- `makeFlowInferences` of the receiver: a name, and the type it is of.
unfoldable pub make_flow_inferences : Expr → TyEnv → Option (Name × Option Addr)
unfolding name_eq lookup_type
make_flow_inferences (Expr.message (Expr.ident object) selector (more_exprs (Expr.ident cls) rest))
      env =
    if name_eq selector is_kind_of then some (object, lookup_type env cls) else none
make_flow_inferences _ env = none

-- `m_envs.push_back` of an environment with one variable.
abbrev narrowed : Name → Addr → TyChecker → TyChecker
narrowed name type tyc =
    let frame : Frame = record {
      vars = (name, type) ∷ [];
      types = [];
      enclosing = elim tyc.env [ [] ↦ 0 | f ∷ rest ↦ f.enclosing ];
    } in
    record tyc { env = frame ∷ tyc.env }

-- The environment in which the first argument of `ifTrue:ifFalse:` is typed.
unfoldable pub true_env : (Addr → Addr → M Bool) → Name × Option Addr → TyChecker → M TyChecker
unfolding narrow lookup_var
true_env sub (name, inferred) tyc = do
  old ← require (lookup_var tyc.env name)
  new ← require inferred
  type ← narrow sub old new
  pure (narrowed name type tyc)

-- The inferences that a message uses.
unfoldable pub flow : Name → Expr → TyEnv → Option (Name × Option Addr)
unfolding make_flow_inferences name_eq
flow selector receiver env =
    if name_eq selector if_true_if_false then make_flow_inferences receiver env else none

-- The type of each node, over `isSubtypeOf` and `typeSend`.
module _ (sub : Addr → Addr → M Bool) (send : TyEnv → List Addr → Send → M Addr) where
  unfoldable pub send_to : Addr → Name → List Addr → TyChecker → M Addr
  send_to recv selector arg_types tyc = send tyc.env arg_types (record {
    to = recv;
    selector = selector;
    true_receiver = recv;
    previous = [];
    skip_first = false;
  })

  unfoldable pub check_assign : Addr → Addr → M Addr
  check_assign lhs rhs = do
    holds ← sub rhs lhs
    if holds then pure tt else complain (not_subtype rhs lhs)
    pure lhs

  unfoldable pub check_return : Addr → TyChecker → M (Unit {0})
  check_return type tyc = do
    holds ← sub type tyc.ret_type
    if holds then pure tt else complain (not_subtype type tyc.ret_type)

  unfoldable mutual
    unfolding type_of_block type_of_ident flow true_env send_to check_assign check_return name_eq

    pub type_of : Expr → TyChecker → M Addr
    type_of (Expr.integer i) tyc = pure tyc.smi_type
    type_of (Expr.character c) tyc = pure tyc.char_type
    type_of (Expr.symbol c) tyc = pure tyc.sym_type
    type_of (Expr.string c) tyc = pure tyc.string_type
    type_of Expr.float tyc = pure tyc.float_type
    type_of Expr.array tyc = die
    type_of (Expr.ident id) tyc = type_of_ident id tyc
    type_of (Expr.assign left right) tyc = do
      lhs ← type_of_ident left tyc
      rhs ← type_of right tyc
      check_assign lhs rhs
    type_of (Expr.message receiver selector args) tyc = do
      recv ← type_of receiver tyc
      arg_types ← elim (flow selector receiver tyc.env) [
        | none ↦ types_of args tyc
        | some inference ↦ narrowed_types args inference tyc
      ]
      send_to recv selector arg_types tyc
    type_of (Expr.cascade receiver messages) tyc = do
      recv ← type_of receiver tyc
      cascade_type messages recv tyc
    type_of (Expr.primitive name args) tyc = do arg_types ← types_of args tyc; new_id
    type_of (Expr.block args locals stmts) tyc = type_of_block args stmts tyc

    pub types_of : Exprs → TyChecker → M (List Addr)
    types_of no_exprs tyc = pure []
    types_of (more_exprs e es) tyc = do t ← type_of e tyc; ts ← types_of es tyc; pure (t ∷ ts)

    pub narrowed_types : Exprs → Name × Option Addr → TyChecker → M (List Addr)
    narrowed_types (more_exprs when_true (more_exprs when_false rest)) inference tyc = do
      inner ← true_env sub inference tyc
      t ← type_of when_true inner
      f ← type_of when_false tyc
      pure (t ∷ f ∷ [])
    narrowed_types _ inference tyc = die

    -- The type of a cascade is that of its last message.
    pub cascade_type : Messages → Addr → TyChecker → M Addr
    cascade_type no_messages recv tyc = die
    cascade_type (more_messages e selector args no_messages) recv tyc = do
      arg_types ← types_of args tyc
      send_to recv selector arg_types tyc
    cascade_type (more_messages e selector args (more_messages e' selector' args' rest)) recv tyc =
        do
          arg_types ← types_of args tyc
          result ← send_to recv selector arg_types tyc
          cascade_type (more_messages e' selector' args' rest) recv tyc

  -- The statements of a method.
  unfoldable pub check_stmts : Stmts → TyChecker → M (Unit {0})
  unfolding type_of check_return
  check_stmts no_stmts tyc = pure tt
  check_stmts (expr_stmt e rest) tyc = do t ← type_of e tyc; check_stmts rest tyc
  check_stmts (return_stmt e rest) tyc = do
    t ← type_of e tyc
    check_return t tyc
    check_stmts rest tyc

  -- The statements of a block: an expression that ends them is what the block returns.
  unfoldable pub block_result : Stmts → TyChecker → M Addr
  unfolding type_of check_return
  block_result no_stmts tyc = new_id
  block_result (expr_stmt e no_stmts) tyc = type_of e tyc
  block_result (expr_stmt e (expr_stmt e' rest)) tyc = do
    t ← type_of e tyc
    block_result (expr_stmt e' rest) tyc
  block_result (expr_stmt e (return_stmt e' rest)) tyc = do
    t ← type_of e tyc
    block_result (return_stmt e' rest) tyc
  block_result (return_stmt e rest) tyc = do
    t ← type_of e tyc
    check_return t tyc
    block_result rest tyc

-- `env->m_vars[args[i].first] = argTypes[i]` for as many arguments as the block's type has.
unfoldable pub bind_args :
    List Addr → List Name → List Addr → List (Name × Addr) → Option (List (Name × Addr))
bind_args [] names types vars = some vars
bind_args (a ∷ rest) (n ∷ names) (t ∷ types) vars = bind_args rest names types ((n, t) ∷ vars)
bind_args (a ∷ rest) names types vars = none

-- `Type::typeCheckBlock`. `depth` bounds the depth of types; the fuel bounds how deep blocks are checked in one
-- another, and the depth of all calls.
unfoldable pub type_check_block : ℕ → ℕ → Addr → List Addr → M Addr
unfolding bind_args block_result is_subtype_of type_send
type_check_block depth zero b arg_types s = runs_on
type_check_block depth (suc n) b arg_types s =
    (do
      vars ← require (bind_args (s.blocks b).arg_types (s.blocks b).node_args arg_types [])
      let tyc = (s.blocks b).node_tyc
      let frame : Frame = record { vars = vars; types = []; enclosing = 0 }
      let sub = is_subtype_of (type_check_block depth n) depth n
      block_result sub (λ env args. type_send sub env args depth n) (s.blocks b).node_stmts
          (record tyc { env = frame ∷ tyc.env }))
      s

-- `isSubtypeOf` and `typeSend` as the checker calls them.
unfoldable pub subtype : ℕ → ℕ → Addr → Addr → M Bool
unfolding is_subtype_of type_check_block
subtype depth n = is_subtype_of (type_check_block depth n) depth n

unfoldable pub sends : ℕ → ℕ → TyEnv → List Addr → Send → M Addr
unfolding type_send subtype
sends depth n env args = type_send (subtype depth n) env args depth n

-- The body of `MethodNode::typeCheck`, in the environment of the method.
unfoldable pub check_method : ℕ → ℕ → Stmts → TyChecker → M (Unit {0})
unfolding check_stmts subtype sends
check_method depth n stmts tyc = check_stmts (subtype depth n) (sends depth n) stmts tyc
