-- ===== src/Examples/Names.antt =====
-- A method with the argument `a`, the local `l` and the instance variable `i`, and a block inside it with
-- an argument `b` and a local of the same name.
use valutron.Prelude.{◌≡◌, refl, none, [], ◌∷◌}
use valutron.Scope.{Var, CodeScope, Scope, method_scope, block_scope, lookup, lookup_from_block}
use valutron.Scope.Indices.{IsNumbered}
use valutron.Scope.Visible.{AllNumbered, Seen}
use valutron.Scope.Resolution.{lookup-Seen}
use valutron.Scope.Promotion.{lookup_from_block-stable}

abbrev a_var : Var
a_var = record { name = 97 ∷ []; index = 1; promoted = none }

abbrev b_var : Var
b_var = record { name = 98 ∷ []; index = 1; promoted = none }

abbrev l_var : Var
l_var = record { name = 108 ∷ []; index = 1; promoted = none }

abbrev i_var : Var
i_var = record { name = 105 ∷ []; index = 1; promoted = none }

abbrev of_method : CodeScope
of_method = record { my_heap_vars = []; args = a_var ∷ []; locals = l_var ∷ [] }

abbrev of_block : CodeScope
of_block = record { my_heap_vars = []; args = b_var ∷ []; locals = b_var ∷ [] }

abbrev outer : Scope
outer = method_scope of_method (i_var ∷ [])

abbrev nested : Scope
nested = block_scope of_block outer

of_method-IsNumbered : IsNumbered of_method
of_method-IsNumbered = record { heap_vars = tt; args = (refl, tt); locals = (refl, tt) }

of_block-IsNumbered : IsNumbered of_block
of_block-IsNumbered = record { heap_vars = tt; args = (refl, tt); locals = (refl, tt) }

nested-AllNumbered : AllNumbered nested
nested-AllNumbered = (of_block-IsNumbered, (of_method-IsNumbered, (refl, tt)))

lookup-Seen_example :
    AllNumbered (lookup (108 ∷ []) nested).0
    × Seen (108 ∷ []) (lookup (108 ∷ []) nested).0 (lookup (108 ∷ []) nested).1
lookup-Seen_example = lookup-Seen (108 ∷ []) nested nested-AllNumbered

lookup_from_block-stable_example :
    lookup_from_block (97 ∷ []) (lookup_from_block (97 ∷ []) nested).0
    ≡ lookup_from_block (97 ∷ []) nested
lookup_from_block-stable_example = lookup_from_block-stable (97 ∷ []) nested
