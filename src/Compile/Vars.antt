-- ===== src/Compile/Vars.antt =====
-- Variables and identifiers: `Var::generateOn` and its companions, and `IdentExprNode`, of cmd/vm/AST.cc.
use valutron.Prelude.{ℕ, Bool, ◌||◌, Option, none, some, List, [], ◌∷◌, ◌==◌, if◌then◌else◌}
use valutron.Outcome.{Outcome, done, dies, ◌>>=◌}
use valutron.CodeGen.{
  CodeGen, Name, RegisterId, local_index, gen_star, gen_load_instance_var, gen_load_argument,
  gen_load_local, gen_load_my_heap_var, gen_load_parent_heap_var, gen_load_global, gen_load_self,
  gen_load_nil, gen_load_true, gen_load_false, gen_load_smalltalk, gen_load_this_context,
  gen_load_this_process, gen_store_instance_var, gen_store_local, gen_store_my_heap_var,
  gen_store_parent_heap_var, gen_store_global, gen_move_parent_heap_var_to_my_heap_vars,
  gen_move_local_to_my_heap_vars, gen_move_argument_to_my_heap_vars,
  gen_move_my_heap_var_to_parent_heap_vars,
}
use valutron.Scope.{
  name_eq, Var, Resolved, heap_var, parents_heap_var, local, argument, instance_var, global,
  HeapEntry,
}
use valutron.Tree.Syntax.{self, super}
use valutron.Compile.State.{Env}

-- `promotedIndex` of the variable of that index, if it is `promoted` by the time of code generation.
unfoldable pub promoted_index : ℕ → List Var → Option ℕ
promoted_index i [] = none
promoted_index i (v ∷ vs) = if v.index == i then v.promoted else promoted_index i vs

unfoldable pub find_moved : ℕ → List (ℕ × ℕ) → Option ℕ
find_moved i [] = none
find_moved i ((from, to) ∷ moved) = if from == i then some to else find_moved i moved

-- What is done with a heap variable, if there is one, and else with the variable itself.
unfoldable pub on_heap_var : {A : Type 0} → Option ℕ → (ℕ → A) → A → A
on_heap_var (some j) f a = f j
on_heap_var none f a = a

-- `Var::generateOn`. A `ParentsHeapVar` that a node names is an object of its own and is never promoted.
unfoldable pub generate_var : Env → Resolved → CodeGen → CodeGen
unfolding on_heap_var promoted_index find_moved
generate_var env (instance_var i) c = gen_load_instance_var i c
generate_var env (argument i) c =
    on_heap_var (promoted_index i env.scope.args) (λ j. gen_load_my_heap_var j c)
      (gen_load_argument i c)
generate_var env (local i) c =
    on_heap_var (promoted_index i env.scope.locals) (λ j. gen_load_my_heap_var j c)
      (gen_load_local i c)
generate_var env (parents_heap_var i) c =
    on_heap_var (find_moved i env.moved) (λ j. gen_load_my_heap_var j c)
      (gen_load_parent_heap_var i c)
generate_var env (heap_var i) c = gen_load_my_heap_var i c
generate_var env (global name) c = gen_load_global name c

-- `Var::generateIntoReg`.
unfoldable pub generate_var_into_reg : Env → Resolved → CodeGen → CodeGen × RegisterId
unfolding on_heap_var promoted_index local_index gen_star generate_var
generate_var_into_reg env (argument i) c =
    on_heap_var (promoted_index i env.scope.args) (λ j. gen_star (generate_var env (argument i) c))
      ((c, i))
generate_var_into_reg env (local i) c =
    on_heap_var (promoted_index i env.scope.locals) (λ j. gen_star (generate_var env (local i) c))
      ((c, local_index c i))
generate_var_into_reg env r c = gen_star (generate_var env r c)

-- The rest of `Var::generateAssignOn`, when the value is in the accumulator. An argument is not among the
-- cases: the assignment goes to a global variable of its name.
unfoldable pub generate_store : Env → Name → Resolved → CodeGen → CodeGen
unfolding on_heap_var promoted_index find_moved
generate_store env name (instance_var i) c = gen_store_instance_var i c
generate_store env name (local i) c =
    on_heap_var (promoted_index i env.scope.locals) (λ j. gen_store_my_heap_var j c)
      (gen_store_local i c)
generate_store env name (parents_heap_var i) c =
    on_heap_var (find_moved i env.moved) (λ j. gen_store_my_heap_var j c)
      (gen_store_parent_heap_var i c)
generate_store env name (heap_var i) c = gen_store_my_heap_var i c
generate_store env name r c = gen_store_global name c

-- `Var::generatePromoteOn` for a variable of that kind and index and its heap variable.
unfoldable pub generate_promote : Resolved → ℕ → CodeGen → Outcome CodeGen
unfolding gen_move_parent_heap_var_to_my_heap_vars gen_move_local_to_my_heap_vars
    gen_move_argument_to_my_heap_vars
generate_promote (parents_heap_var i) j c = done (gen_move_parent_heap_var_to_my_heap_vars i j c)
generate_promote (local i) j c = done (gen_move_local_to_my_heap_vars i j c)
generate_promote (argument i) j c = done (gen_move_argument_to_my_heap_vars i j c)
generate_promote _ j c = dies

-- The loop over `myHeapVars` that makes the promotions.
unfoldable pub generate_promotes : List HeapEntry → CodeGen → Outcome CodeGen
unfolding generate_promote
generate_promotes [] c = done c
generate_promotes (v ∷ vs) c = do c ← generate_promote v.origin v.index c; generate_promotes vs c

-- What `generatePromoteOn` puts into `parentHeapVarToMyHeapVar`, the latest first.
unfoldable pub move_by : Resolved → ℕ → List (ℕ × ℕ) → List (ℕ × ℕ)
move_by (parents_heap_var i) j moved = (i, j) ∷ moved
move_by _ j moved = moved

unfoldable pub moved_by : List HeapEntry → List (ℕ × ℕ) → List (ℕ × ℕ)
unfolding move_by
moved_by [] moved = moved
moved_by (v ∷ vs) moved = moved_by vs (move_by v.origin v.index moved)

-- `Var::generateRestoreOn`.
unfoldable pub generate_restore : Resolved → ℕ → CodeGen → CodeGen
unfolding gen_move_my_heap_var_to_parent_heap_vars
generate_restore (parents_heap_var i) j c = gen_move_my_heap_var_to_parent_heap_vars j i c
generate_restore _ j c = c

-- `BlockExprNode::generateReturnPreludeOn`.
unfoldable pub generate_restores : List HeapEntry → CodeGen → CodeGen
unfolding generate_restore
generate_restores [] c = c
generate_restores (v ∷ vs) c = generate_restores vs (generate_restore v.origin v.index c)

-- The names that `IdentExprNode` tests before it takes the variable, but for `self` and `super`.
abbrev pub nil_name : Name
nil_name = b'n' ∷ b'i' ∷ b'l' ∷ []

abbrev pub true_name : Name
true_name = b't' ∷ b'r' ∷ b'u' ∷ b'e' ∷ []

abbrev pub false_name : Name
false_name = b'f' ∷ b'a' ∷ b'l' ∷ b's' ∷ b'e' ∷ []

abbrev pub smalltalk : Name
smalltalk = b'S' ∷ b'm' ∷ b'a' ∷ b'l' ∷ b'l' ∷ b't' ∷ b'a' ∷ b'l' ∷ b'k' ∷ []

abbrev pub this_context : Name
this_context = b't' ∷ b'h' ∷ b'i' ∷ b's' ∷ b'C' ∷ b'o' ∷ b'n' ∷ b't' ∷ b'e' ∷ b'x' ∷ b't' ∷ []

abbrev pub this_process : Name
this_process = b't' ∷ b'h' ∷ b'i' ∷ b's' ∷ b'P' ∷ b'r' ∷ b'o' ∷ b'c' ∷ b'e' ∷ b's' ∷ b's' ∷ []

-- `isSuper() || id == "self"`.
unfoldable pub is_receiver : Name → Bool
unfolding name_eq
is_receiver id = name_eq id super || name_eq id self

-- `IdentExprNode::generateOn`.
unfoldable pub generate_ident : Env → Name → Resolved → CodeGen → CodeGen
unfolding is_receiver name_eq generate_var
generate_ident env id r c =
    if is_receiver id
    then gen_load_self c
    else if name_eq id nil_name
    then gen_load_nil c
    else if name_eq id true_name
    then gen_load_true c
    else if name_eq id false_name
    then gen_load_false c
    else if name_eq id smalltalk
    then gen_load_smalltalk c
    else if name_eq id this_context
    then gen_load_this_context c
    else if name_eq id this_process
    then gen_load_this_process c
    else generate_var env r c

-- `IdentExprNode::generateIntoReg`.
unfoldable pub generate_ident_into_reg : Env → Name → Resolved → CodeGen → CodeGen × RegisterId
unfolding is_receiver name_eq generate_var_into_reg gen_star
generate_ident_into_reg env id r c =
    if is_receiver id
    then (c, 0)
    else if name_eq id nil_name
    then gen_star (gen_load_nil c)
    else if name_eq id true_name
    then gen_star (gen_load_true c)
    else if name_eq id false_name
    then gen_star (gen_load_false c)
    else if name_eq id smalltalk
    then gen_star (gen_load_smalltalk c)
    else if name_eq id this_context
    then gen_star (gen_load_this_context c)
    else if name_eq id this_process
    then gen_star (gen_load_this_process c)
    else generate_var_into_reg env r c
