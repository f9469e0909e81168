-- ===== src/Compile/Idents.antt =====
-- The code of variables and identifiers of cmd/vm/AST.cc: whole instructions, without a jump.
use valutron.Prelude.{ℕ, refl, Bool, true, false, Option, none, some, List, [], ◌∷◌, if◌then◌else◌}
use valutron.CodeGen.{
  CodeGen, Name, RegisterId, local_index, gen_star, gen_load_nil, gen_load_true, gen_load_false,
  gen_load_smalltalk, gen_load_this_context, gen_load_this_process,
}
use valutron.Bytecode.Instruction.{Instr}
use valutron.Scope.{
  name_eq, Resolved, heap_var, parents_heap_var, local, argument, instance_var, global, HeapEntry,
}
use valutron.Generated.Calls.{Call, perform}
use valutron.Generated.Emit.{IsCountable}
use valutron.Compile.State.{State, Env}
use valutron.Compile.Leads.{
  Emitted, Emitted-trans, Leads-same, IsPlain, call-Leads, Ends, Ends-bind,
}
use valutron.Compile.Vars.{
  is_receiver, nil_name, true_name, false_name, smalltalk, this_context, this_process, on_heap_var,
  promoted_index, find_moved, generate_promote, generate_restore, generate_var,
  generate_var_into_reg, generate_store, generate_promotes, generate_restores, generate_ident,
  generate_ident_into_reg,
}

-- The generator's code grows by whole instructions whose jumps stay among them.
abbrev pub Grows : CodeGen → CodeGen → Type 0
Grows c d = (is : List Instr) × Emitted c d is

pub call-Grows :
    (call : Call) (c : CodeGen) → IsCountable call → IsPlain call → Grows c (perform call c)
call-Grows call c count plain =
    (call-Leads call (record { code_gen = c; blocks = [] })
      (record { code_gen = perform call c; blocks = [] }) count plain refl refl).0

pub Grows-same : (c : CodeGen) → Grows c c
Grows-same c =
    let st : State = record { code_gen = c; blocks = [] } in (Leads-same st st refl refl).0

pub Grows-trans : (c d e : CodeGen) → Grows c d → Grows d e → Grows c e
Grows-trans c d e (is, h) (js, k) = (_, Emitted-trans c d e is js h k)

-- The same, when a register is the result.
unfoldable pub GrowsReg : CodeGen → CodeGen × RegisterId → Type 0
GrowsReg c p = Grows c p.0

no-GrowsReg : (c : CodeGen) (reg : RegisterId) → GrowsReg c (c, reg)
unfolding GrowsReg
no-GrowsReg c reg = Grows-same c

star-GrowsReg : (c d : CodeGen) → Grows c d → GrowsReg c (gen_star d)
unfolding GrowsReg perform
star-GrowsReg c d h = Grows-trans c d (gen_star d).0 h (call-Grows Call.star d tt tt)

on_heap_var-has :
    {A : Type 0} (P : A → Type 0) (o : Option ℕ) (f : ℕ → A) (a : A)
    → ((j : ℕ) → P (f j))
    → P a
    → P (on_heap_var o f a)
unfolding on_heap_var
on_heap_var-has P (some j) f a h k = h j
on_heap_var-has P none f a h k = k

if-has : {A : Type 0} (P : A → Type 0) (b : Bool) {x y : A} → P x → P y → P (if b then x else y)
if-has P true h k = h
if-has P false h k = k

generate_var-Grows : (env : Env) (r : Resolved) (c : CodeGen) → Grows c (generate_var env r c)
unfolding generate_var perform
generate_var-Grows env (instance_var i) c = call-Grows (Call.load_instance_var i) c tt tt
generate_var-Grows env (argument i) c =
    on_heap_var-has (Grows c) (promoted_index i env.scope.args) _ _
      (λ j. call-Grows (Call.load_my_heap_var j) c tt tt)
      (call-Grows (Call.load_argument i) c tt tt)
generate_var-Grows env (local i) c =
    on_heap_var-has (Grows c) (promoted_index i env.scope.locals) _ _
      (λ j. call-Grows (Call.load_my_heap_var j) c tt tt) (call-Grows (Call.load_local i) c tt tt)
generate_var-Grows env (parents_heap_var i) c =
    on_heap_var-has (Grows c) (find_moved i env.moved) _ _
      (λ j. call-Grows (Call.load_my_heap_var j) c tt tt)
      (call-Grows (Call.load_parent_heap_var i) c tt tt)
generate_var-Grows env (heap_var i) c = call-Grows (Call.load_my_heap_var i) c tt tt
generate_var-Grows env (global name) c = call-Grows (Call.load_global name) c tt tt

generate_var_into_reg-GrowsReg :
    (env : Env) (r : Resolved) (c : CodeGen) → GrowsReg c (generate_var_into_reg env r c)
unfolding generate_var_into_reg
generate_var_into_reg-GrowsReg env (argument i) c =
    on_heap_var-has (GrowsReg c) (promoted_index i env.scope.args) _ _
      (λ j. star-GrowsReg c _ (generate_var-Grows env (argument i) c)) (no-GrowsReg c i)
generate_var_into_reg-GrowsReg env (local i) c =
    on_heap_var-has (GrowsReg c) (promoted_index i env.scope.locals) _ _
      (λ j. star-GrowsReg c _ (generate_var-Grows env (local i) c))
      (no-GrowsReg c (local_index c i))
generate_var_into_reg-GrowsReg env r c = star-GrowsReg c _ (generate_var-Grows env r c)

pub generate_store-Grows :
    (env : Env) (name : Name) (r : Resolved) (c : CodeGen) → Grows c (generate_store env name r c)
unfolding generate_store perform
generate_store-Grows env name (instance_var i) c = call-Grows (Call.store_instance_var i) c tt tt
generate_store-Grows env name (local i) c =
    on_heap_var-has (Grows c) (promoted_index i env.scope.locals) _ _
      (λ j. call-Grows (Call.store_my_heap_var j) c tt tt) (call-Grows (Call.store_local i) c tt tt)
generate_store-Grows env name (parents_heap_var i) c =
    on_heap_var-has (Grows c) (find_moved i env.moved) _ _
      (λ j. call-Grows (Call.store_my_heap_var j) c tt tt)
      (call-Grows (Call.store_parent_heap_var i) c tt tt)
generate_store-Grows env name (heap_var i) c = call-Grows (Call.store_my_heap_var i) c tt tt
generate_store-Grows env name _ c = call-Grows (Call.store_global name) c tt tt

pub generate_ident-Grows :
    (env : Env) (id : Name) (r : Resolved) (c : CodeGen) → Grows c (generate_ident env id r c)
unfolding generate_ident perform
generate_ident-Grows env id r c =
    let P = Grows c in
    if-has P _ (call-Grows Call.load_self c tt tt) (
      if-has P _ (call-Grows Call.load_nil c tt tt) (
        if-has P _ (call-Grows Call.load_true c tt tt) (
          if-has P _ (call-Grows Call.load_false c tt tt) (
            if-has P _ (call-Grows Call.load_smalltalk c tt tt) (
              if-has P _ (call-Grows Call.load_this_context c tt tt) (
                if-has P _ (call-Grows Call.load_this_process c tt tt)
                  (generate_var-Grows env r c)))))))

pub generate_ident_into_reg-GrowsReg :
    (env : Env) (id : Name) (r : Resolved) (c : CodeGen)
    → GrowsReg c (generate_ident_into_reg env id r c)
unfolding generate_ident_into_reg perform
generate_ident_into_reg-GrowsReg env id r c =
    let P = GrowsReg c in
    if-has P (is_receiver id) (no-GrowsReg c 0) (
      if-has P (name_eq id nil_name)
        (star-GrowsReg c (gen_load_nil c) (call-Grows Call.load_nil c tt tt))
        (if-has P (name_eq id true_name)
          (star-GrowsReg c (gen_load_true c) (call-Grows Call.load_true c tt tt))
          (if-has P (name_eq id false_name)
            (star-GrowsReg c (gen_load_false c) (call-Grows Call.load_false c tt tt))
            (if-has P (name_eq id smalltalk)
              (star-GrowsReg c (gen_load_smalltalk c) (call-Grows Call.load_smalltalk c tt tt))
              (if-has P (name_eq id this_context)
                (star-GrowsReg c (gen_load_this_context c)
                  (call-Grows Call.load_this_context c tt tt))
                (if-has P (name_eq id this_process)
                  (star-GrowsReg c (gen_load_this_process c)
                    (call-Grows Call.load_this_process c tt tt))
                  (generate_var_into_reg-GrowsReg env r c)))))))

-- A variable that can be promoted.
abbrev pub IsPromotable : Resolved → Type 0
IsPromotable (parents_heap_var i) = Unit
IsPromotable (local i) = Unit
IsPromotable (argument i) = Unit
IsPromotable _ = ⊥

abbrev pub AllPromotable : List HeapEntry → Type 0
AllPromotable [] = Unit
AllPromotable (v ∷ vs) = IsPromotable v.origin × AllPromotable vs

generate_promote-Grows :
    (r : Resolved) (j : ℕ) (c : CodeGen) → IsPromotable r → Ends (generate_promote r j c) (Grows c)
unfolding generate_promote perform
generate_promote-Grows (parents_heap_var i) j c h =
    call-Grows (Call.move_parent_heap_var_to_my_heap_vars i j) c tt tt
generate_promote-Grows (local i) j c h = call-Grows (Call.move_local_to_my_heap_vars i j) c tt tt
generate_promote-Grows (argument i) j c h =
    call-Grows (Call.move_argument_to_my_heap_vars i j) c tt tt
generate_promote-Grows _ j c h = elim h [ ]

pub generate_promotes-Grows :
    (vs : List HeapEntry) (b c : CodeGen)
    → Grows b c
    → AllPromotable vs
    → Ends (generate_promotes vs c) (Grows b)
unfolding generate_promotes
generate_promotes-Grows [] b c g h = g
generate_promotes-Grows (v ∷ vs) b c g h =
    Ends-bind (Grows c) (Grows b) (generate_promote v.origin v.index c) _
      (generate_promote-Grows v.origin v.index c h.0)
      λ d g'. generate_promotes-Grows vs b d (Grows-trans b c d g g') h.1

generate_restore-Grows : (r : Resolved) (j : ℕ) (c : CodeGen) → Grows c (generate_restore r j c)
unfolding generate_restore perform
generate_restore-Grows (parents_heap_var i) j c =
    call-Grows (Call.move_my_heap_var_to_parent_heap_vars j i) c tt tt
generate_restore-Grows _ j c = Grows-same c

pub generate_restores-Grows : (vs : List HeapEntry) (c : CodeGen) → Grows c (generate_restores vs c)
unfolding generate_restores
generate_restores-Grows [] c = Grows-same c
generate_restores-Grows (v ∷ vs) c =
    let d = generate_restore v.origin v.index c in
    Grows-trans c d (generate_restores vs d) (generate_restore-Grows v.origin v.index c)
      (generate_restores-Grows vs d)
