-- ===== src/Types/Store.antt =====
-- The objects of cmd/vm/Typecheck.hh, which are shared and changed in place: types, type blocks, variable
-- declarations, and the classes and methods that they name, each by its address. The address 0 is null.
use valutron.Prelude.{
  ℕ, suc, Bool, false, Option, none, some, List, [], ◌∷◌, ◌==◌, ◌≡◌, if◌then◌else◌,
}
use valutron.Outcome.{Outcome, done, dies, runs_on}
use valutron.CodeGen.{Name}
use valutron.Scope.{name_eq}
use valutron.Tree.Syntax.{Stmts}

abbrev pub Addr : Type 0
Addr = ℕ

-- `Type::Kind`. `resolved_class` and `resolved_instance` are kClass and kInstance.
pub data Kind : Type 0 where
  ident as_yet_unspecified union block self instance_type id ty_var : Kind
  resolved_class resolved_instance super : Kind

-- `Type`.
pub record Ty : Type 0 where
  pub kind : Kind
  pub is_constructor : Bool
  pub was_inferred : Bool
  pub members : List Addr
  pub ty_var_decl : Addr
  pub cls : Addr
  pub type_block : Addr
  pub name : Name
  pub type_args : List Addr

-- `VarDecl`: a name with its type, or the bound of a type variable.
pub record VarDecl : Type 0 where
  pub first : Name
  pub second : Addr

-- One `TyEnv`. An environment is the list of its frames, the innermost first: `m_parent` is the rest.
pub record Frame : Type 0 where
  pub vars : List (Name × Addr)
  pub types : List (Name × Addr)
  pub enclosing : Addr

abbrev pub TyEnv : Type 0
TyEnv = List Frame

-- `TyChecker`, with `m_envs` and of `m_method` its return type.
pub record TyChecker : Type 0 where
  pub char_type : Addr
  pub float_type : Addr
  pub smi_type : Addr
  pub sym_type : Addr
  pub string_type : Addr
  pub env : TyEnv
  pub ret_type : Addr

-- `TyBlock`, with what the type checker reads of its node.
pub record TyBlock : Type 0 where
  pub node_args : List Name
  pub node_stmts : Stmts
  pub node_tyc : TyChecker
  pub ty_params : List Addr
  pub ret_type : Addr
  pub arg_types : List Addr

-- Of `MethodNode`.
pub record MethodNode : Type 0 where
  pub sel : Name
  pub ty_params : List Addr
  pub args : List Addr
  pub ret_type : Addr

-- Of `ClassNode`.
pub record ClassNode : Type 0 where
  pub super_class : Addr
  pub super_type : Addr
  pub cls_type : Addr
  pub nst_master_type : Addr
  pub ty_params : List Addr
  pub vars : List (Name × Addr)
  pub i_methods : List MethodNode
  pub c_methods : List MethodNode

-- What is written to `std::cerr`.
pub data Complaint : Type 0 where
  not_subtype : Addr → Addr → Complaint
  not_understood : Addr → Name → Complaint
  unknown_receiver : Name → Complaint

pub record Store : Type 0 where
  pub types : Addr → Ty
  pub blocks : Addr → TyBlock
  pub decls : Addr → VarDecl
  pub classes : Addr → ClassNode
  pub next : Addr
  pub complaints : List Complaint

-- A thrown error ends the program, as an abort does.
abbrev pub M : Type 0 → Type 0
M A = Store → Outcome (A × Store)

abbrev pub pure : {A : Type 0} → A → M A
pure a s = done (a, s)

infixl 5 ◌>>=◌ ◌>>◌
abbrev pub ◌>>=◌ : {A B : Type 0} → M A → (A → M B) → M B
◌>>=◌ m f s = elim (m s) [ done (a, s') ↦ f a s' | dies ↦ dies | runs_on ↦ runs_on ]

pub >>=-done :
    {A B : Type 0} (m : M A) (f : A → M B) {s s' : Store} {a : A}
    → m s ≡ done (a, s')
    → (m >>= f) s ≡ f a s'
>>=-done m f e = rw (e, ◌>>=◌)

pub >>=-dies : {A B : Type 0} (m : M A) (f : A → M B) {s : Store} → m s ≡ dies → (m >>= f) s ≡ dies
>>=-dies m f e = rw (e, ◌>>=◌)

abbrev pub ◌>>◌ : {B : Type 0} → M (Unit {0}) → M B → M B
m >> k = m >>= λ _. k

abbrev pub die : {A : Type 0} → M A
die s = dies

abbrev pub get : M Store
get s = done (s, s)

-- `operator[]` of a vector, or a member of a null pointer.
abbrev pub require : {A : Type 0} → Option A → M A
require none s = dies
require (some a) s = done (a, s)

abbrev pub update : {A : Type 0} → (Addr → A) → Addr → A → Addr → A
update f p v q = if q == p then v else f q

abbrev pub set_type : Addr → Ty → M (Unit {0})
set_type p t s = done (tt, record s { types = update s.types p t })

abbrev pub set_block : Addr → TyBlock → M (Unit {0})
set_block p b s = done (tt, record s { blocks = update s.blocks p b })

abbrev pub set_decl : Addr → VarDecl → M (Unit {0})
set_decl p d s = done (tt, record s { decls = update s.decls p d })

abbrev pub set_class : Addr → ClassNode → M (Unit {0})
set_class p c s = done (tt, record s { classes = update s.classes p c })

-- `new Type`, `new TyBlock` and a new declaration, with the content given at once.
abbrev pub new_type : Ty → M Addr
new_type t s = done (s.next, record s { types = update s.types s.next t; next = suc s.next })

abbrev pub new_block : TyBlock → M Addr
new_block b s = done (s.next, record s { blocks = update s.blocks s.next b; next = suc s.next })

abbrev pub new_decl : VarDecl → M Addr
new_decl d s = done (s.next, record s { decls = update s.decls s.next d; next = suc s.next })

abbrev pub complain : Complaint → M (Unit {0})
complain c s = done (tt, record s { complaints = c ∷ s.complaints })

-- `Type::Type()`.
abbrev pub plain : Kind → Ty
plain k = record {
  kind = k;
  is_constructor = false;
  was_inferred = false;
  members = [];
  ty_var_decl = 0;
  cls = 0;
  type_block = 0;
  name = [];
  type_args = [];
}

-- `std::map::find`.
unfoldable pub find : Name → List (Name × Addr) → Option Addr
unfolding name_eq
find txt [] = none
find txt ((n, a) ∷ rest) = if name_eq n txt then some a else find txt rest

-- `TyEnv::lookupVar` and `TyEnv::lookupType`.
unfoldable pub lookup_var : TyEnv → Name → Option Addr
unfolding find
lookup_var [] txt = none
lookup_var (f ∷ parent) txt =
    let outer = lookup_var parent txt in elim (find txt f.vars) [ some a ↦ some a | none ↦ outer ]

unfoldable pub lookup_type : TyEnv → Name → Option Addr
unfolding find
lookup_type [] txt = none
lookup_type (f ∷ parent) txt =
    let outer = lookup_type parent txt in elim (find txt f.types) [ some a ↦ some a | none ↦ outer ]
