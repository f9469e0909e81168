-- ===== src/Types/Blocks.antt =====
-- Block types: the block case of `isSubtypeOf`.
use valutron.Prelude.{ℕ, suc, ◌<◌, ◌≡◌, ap₂, false, List, [], if◌then◌else◌}
use valutron.Outcome.{done}
use valutron.Scope.{name_eq}
use valutron.Types.Store.{Addr, Kind, TyBlock, Store, M, update}
use valutron.Types.Subtype.{
  below_each, block_ret_type, block_below_block, compare_kinds, is_subtype_of,
}
use valutron.Types.Terms.{
  Term, Terms, Agree-trans, Denotes, DenoteAll, Denotes-Agree, DenoteAll-Agree,
}
use valutron.Types.Substitution.{Agree-new}
use valutron.Types.Hierarchy.{
  Hierarchy, IsHierarchy, IsHierarchy-Agree, WellFormed, WellFormedAll, Anywhere,
}
use valutron.Types.Answers.{
  Answers, Answers-after, Answers-branch, Answers-eq, Answers-and_then, and_then, each_below, below,
}
use valutron.Types.Refines.{
  below_each-each_below, by_kinds, is_subtype_of-below, is_subtype_of-Implements,
}

-- The type of a block, with the types of its arguments and its return type, which is known.
pub record IsBlock (h : Hierarchy) (s : Store) (ts : Terms) (ret : Term) (a : Addr) : Type 0 where
  pub is_block : (s.types a).kind ≡ Kind.block
  pub made : (s.types a).type_block < s.next
  pub has_args : DenoteAll Anywhere s ts (s.blocks (s.types a).type_block).arg_types
  pub returns : Denotes Anywhere s ret (s.blocks (s.types a).type_block).ret_type
  pub args_formed : WellFormedAll h [] ts
  pub ret_formed : WellFormed h [] ret

-- Suppose that the store holds a hierarchy: every class has the superclass and type parameters of the
-- hierarchy, and if it has a superclass, its supertype is an instance type of that class, made of instances,
-- the class's own type parameters and `id`, each instance with as many type arguments as its class has
-- parameters, and no deeper than the walk may go. Let two objects be block types that are made, whose
-- argument types and return types are each a closed type (instances and `id` only, each instance with as
-- many type arguments as its class has parameters), and let the return type of the given block not have the
-- name of one that is to be inferred, so that it is none that the type of a block expression starts with.
-- Then `isSubtypeOf` compares the arguments first, as the comparison of types without sharing does with the
-- fuel that is left: they are asked to be subtypes of the other block's, and then the return type of the
-- other block to be a subtype of this one's. The block type that is wanted varies with its arguments and
-- against its return type.
pub is_subtype_of-blocks :
    (h : Hierarchy) (depth n : ℕ) (type_check_block : Addr → List Addr → M Addr) (s : Store)
    (ts us : Terms) (t u : Term) (a b : Addr)
    → IsHierarchy h depth s
    → IsBlock h s ts t a
    → IsBlock h s us u b
    → name_eq (s.types (s.blocks (s.types a).type_block).ret_type).name block_ret_type ≡ false
    → Answers s (is_subtype_of type_check_block depth (suc n) a b s) (
        and_then
          (each_below (below h n) ts us)
          (λ holds. if holds then below h n u t else done false))
unfolding block_below_block compare_kinds
is_subtype_of-blocks h depth n type_check_block s ts us t u a b i ba bb known =
    let sub = is_subtype_of type_check_block depth n in
    let new = Agree-new s (s.types a) in
    let s1 = record s { types = update s.types s.next (s.types a); next = suc s.next } in
    let rhs = (s.types a).type_block in
    let lhs = (s.types b).type_block in
    let goal =
      and_then (each_below (below h n) ts us)
        (λ holds. if holds then below h n u t else done false) in
    Answers-eq s goal (by_kinds h depth type_check_block n s a b ba.is_block bb.is_block) (
      Answers-after _ goal new (
        rw known (
          Answers-and_then s1 (below_each sub (s.blocks rhs).arg_types (s.blocks lhs).arg_types) _
            (each_below (below h n) ts us) _
            (below_each-each_below h depth sub (below h n)
              (is_subtype_of-Implements h depth type_check_block n) s1 ts us
              (s.blocks rhs).arg_types (s.blocks lhs).arg_types
              (IsHierarchy-Agree h depth s s1 new i) ba.args_formed bb.args_formed
              (DenoteAll-Agree Anywhere s s1 ts (s.blocks rhs).arg_types new ba.has_args)
              (DenoteAll-Agree Anywhere s s1 us (s.blocks lhs).arg_types new bb.has_args))
            (λ holds s' g.
              let g' = Agree-trans new g in
              Answers-branch s' holds _ (below h n u t) (
                Answers-eq s' (below h n u t)
                  (ap₂ (λ (x y : TyBlock). sub x.ret_type y.ret_type s')
                    (g'.same_blocks lhs bb.made) (g'.same_blocks rhs ba.made))
                  (is_subtype_of-below h depth type_check_block n s' u t (s.blocks lhs).ret_type
                    (s.blocks rhs).ret_type (IsHierarchy-Agree h depth s s' g' i) bb.ret_formed
                    ba.ret_formed
                    (Denotes-Agree Anywhere s s' u (s.blocks lhs).ret_type g' bb.returns)
                    (Denotes-Agree Anywhere s s' t (s.blocks rhs).ret_type g' ba.returns)))))))
