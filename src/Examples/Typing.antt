-- ===== src/Examples/Typing.antt =====
-- Class 1, Number, and class 2, Integer, below it; class 3, Collection<T>, with a method `at` that returns T, and
-- class 4, Array<E>, below Collection<E>. Objects 10 to 15 are the types in the class nodes.
use valutron.Prelude.{ℕ, zero, suc, ◌≤◌, ◌<◌, ◌≢◌, refl, List, [], ◌∷◌, arith, ◌==◌, if◌then◌else◌}
use valutron.CodeGen.{Name}
use valutron.Tree.Syntax.{no_stmts}
use valutron.Types.Store.{Addr, Kind, Ty, TyBlock, MethodNode, TyChecker, Store, plain}
use valutron.Types.Terms.{Term, Terms, inst, var, no_terms, more_terms, Denotes, height}
use valutron.Types.Hierarchy.{Hierarchy, IsHierarchy, WellFormed, Anywhere}
use valutron.Types.Inherits.{IsRanked}

abbrev pub super_of : Addr → Addr
super_of zero = 0
super_of (suc zero) = 0
super_of (suc (suc zero)) = 1
super_of (suc (suc (suc zero))) = 0
super_of (suc (suc (suc (suc zero)))) = 3
super_of (suc (suc (suc (suc (suc c))))) = 0

-- The variables T and E are the declarations 5 and 6.
abbrev pub params : Addr → List Addr
params zero = []
params (suc zero) = []
params (suc (suc zero)) = []
params (suc (suc (suc zero))) = 5 ∷ []
params (suc (suc (suc (suc zero)))) = 6 ∷ []
params (suc (suc (suc (suc (suc c))))) = []

abbrev pub above : Addr → Terms
above zero = no_terms
above (suc zero) = no_terms
above (suc (suc zero)) = no_terms
above (suc (suc (suc zero))) = no_terms
above (suc (suc (suc (suc zero)))) = more_terms (var 6) no_terms
above (suc (suc (suc (suc (suc c))))) = no_terms

abbrev pub super_type : Addr → Addr
super_type zero = 0
super_type (suc zero) = 0
super_type (suc (suc zero)) = 10
super_type (suc (suc (suc zero))) = 0
super_type (suc (suc (suc (suc zero)))) = 11
super_type (suc (suc (suc (suc (suc c))))) = 0

-- A Collection has a variable of type T, and an Array one of type E.
abbrev pub vars_of : Addr → List (Name × Addr)
vars_of zero = []
vars_of (suc zero) = []
vars_of (suc (suc zero)) = []
vars_of (suc (suc (suc zero))) = (b'f' ∷ [], 13) ∷ []
vars_of (suc (suc (suc (suc zero)))) = (b'l' ∷ [], 12) ∷ []
vars_of (suc (suc (suc (suc (suc c))))) = []

abbrev pub classes : Hierarchy
classes = record { super_of = super_of; params = params; above = above }

abbrev pub at_selector : Name
at_selector = b'a' ∷ b't' ∷ []

-- The method `at`, whose return type is object 13.
abbrev pub at_method : MethodNode
at_method = record { sel = at_selector; ty_params = []; args = []; ret_type = 13 }

abbrev pub methods : Addr → List MethodNode
methods zero = []
methods (suc zero) = []
methods (suc (suc zero)) = []
methods (suc (suc (suc zero))) = at_method ∷ []
methods (suc (suc (suc (suc zero)))) = []
methods (suc (suc (suc (suc (suc c))))) = []

abbrev pub instance_of : Addr → List Addr → Ty
instance_of c args = record (plain Kind.resolved_instance) { cls = c; type_args = args }

abbrev pub variable_of : Addr → Ty
variable_of d = record (plain Kind.ty_var) { ty_var_decl = d }

-- 14 is Integer, 15 Number, 16 Array<Integer>, 17 Collection<Number>, and 18 and 19 are block types.
abbrev pub type_at : Addr → Ty
type_at p =
    if p == 10
    then instance_of 1 []
    else if p == 11
    then instance_of 3 (12 ∷ [])
    else if p == 12
    then variable_of 6
    else if p == 13
    then variable_of 5
    else if p == 14
    then instance_of 2 []
    else if p == 15
    then instance_of 1 []
    else if p == 16
    then instance_of 4 (14 ∷ [])
    else if p == 17
    then instance_of 3 (15 ∷ [])
    else if p == 18
    then record (plain Kind.block) { type_block = 20 }
    else record (plain Kind.block) { type_block = 21 }

abbrev pub no_checker : TyChecker
no_checker = record {
  char_type = 0;
  float_type = 0;
  smi_type = 14;
  sym_type = 0;
  string_type = 0;
  env = [];
  ret_type = 0;
}

-- The block of type 18 takes an Integer and returns a Number; that of type 19 takes a Number and returns an Integer.
abbrev pub block_at : Addr → TyBlock
block_at p = record {
  node_args = [];
  node_stmts = no_stmts;
  node_tyc = no_checker;
  ty_params = [];
  ret_type = if p == 20 then 15 else 14;
  arg_types = (if p == 20 then 14 else 15) ∷ [];
}

abbrev pub checked : Store
checked = record {
  types = type_at;
  blocks = block_at;
  decls = λ p. record { first = []; second = 0 };
  classes = λ c. record {
    super_class = super_of c;
    super_type = super_type c;
    cls_type = 0;
    nst_master_type = 0;
    ty_params = params c;
    vars = vars_of c;
    i_methods = methods c;
    c_methods = [];
  };
  next = 30;
  complaints = [];
}

abbrev pub integer_term : Term
integer_term = inst 2 no_terms

abbrev pub number_term : Term
number_term = inst 1 no_terms

abbrev pub array_term : Term
array_term = inst 4 (more_terms integer_term no_terms)

abbrev pub collection_term : Term
collection_term = inst 3 (more_terms number_term no_terms)

has_supertype :
    (c : Addr)
    → super_of c ≢ 0
    → Denotes Anywhere checked (inst (super_of c) (above c)) (super_type c)
has_supertype zero ne = absurd (ne refl)
has_supertype (suc zero) ne = absurd (ne refl)
has_supertype (suc (suc zero)) ne = (tt, omega arith, refl, refl, tt)
has_supertype (suc (suc (suc zero))) ne = absurd (ne refl)
has_supertype (suc (suc (suc (suc zero)))) ne =
    (tt, omega arith, refl, refl, ((tt, omega arith, refl, refl), tt))
has_supertype (suc (suc (suc (suc (suc c))))) ne = absurd (ne refl)

formed : (c : Addr) → super_of c ≢ 0 → WellFormed classes (params c) (inst (super_of c) (above c))
formed zero ne = absurd (ne refl)
formed (suc zero) ne = absurd (ne refl)
formed (suc (suc zero)) ne = (refl, tt)
formed (suc (suc (suc zero))) ne = absurd (ne refl)
formed (suc (suc (suc (suc zero)))) ne = (refl, (refl, tt))
formed (suc (suc (suc (suc (suc c))))) ne = absurd (ne refl)

shallow : (c : Addr) → super_of c ≢ 0 → height (inst (super_of c) (above c)) ≤ 2
unfolding height
shallow zero ne = absurd (ne refl)
shallow (suc zero) ne = absurd (ne refl)
shallow (suc (suc zero)) ne = omega arith
shallow (suc (suc (suc zero))) ne = absurd (ne refl)
shallow (suc (suc (suc (suc zero)))) ne = omega arith
shallow (suc (suc (suc (suc (suc c))))) ne = absurd (ne refl)

pub checked-IsHierarchy : IsHierarchy classes 2 checked
checked-IsHierarchy = record {
  has_super = λ c. refl;
  has_params = λ c. refl;
  has_supertype = has_supertype;
  formed = formed;
  shallow = shallow;
}

abbrev pub rank : Addr → ℕ
rank c = c

falls : (c : Addr) → super_of c ≢ 0 → super_of c < c
falls zero ne = absurd (ne refl)
falls (suc zero) ne = absurd (ne refl)
falls (suc (suc zero)) ne = omega arith
falls (suc (suc (suc zero))) ne = absurd (ne refl)
falls (suc (suc (suc (suc zero)))) ne = omega arith
falls (suc (suc (suc (suc (suc c))))) ne = absurd (ne refl)

pub classes-IsRanked : IsRanked classes rank
classes-IsRanked = record { falls = falls }
