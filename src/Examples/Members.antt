-- ===== src/Examples/Members.antt =====
-- The variables of the classes of Examples/Typing.
use valutron.Prelude.{zero, suc, ◌≡◌, ◌≢◌, refl, true, [], ◌∷◌, arith}
use valutron.Outcome.{done}
use valutron.Types.Store.{Addr}
use valutron.Types.Invocation.{find_decl}
use valutron.Types.Register.{register_ivars}
use valutron.Types.Terms.{Term, var, height}
use valutron.Types.Hierarchy.{member, Bound}
use valutron.Types.Entries.{Entries, Enters, AllFormed, HasVars, inherited_vars}
use valutron.Types.Inherited.{Entered, register_ivars-inherited_vars}
use valutron.Examples.Typing.{
  super_of, params, super_type, classes, rank, checked, checked-IsHierarchy, classes-IsRanked,
  integer_term,
}

abbrev declared : Addr → Entries
declared zero = []
declared (suc zero) = []
declared (suc (suc zero)) = []
declared (suc (suc (suc zero))) = (b'f' ∷ [], var 5) ∷ []
declared (suc (suc (suc (suc zero)))) = (b'l' ∷ [], var 6) ∷ []
declared (suc (suc (suc (suc (suc c))))) = []

has_vars : (c : Addr) → Enters checked (declared c) (checked.classes c).vars
has_vars zero = tt
has_vars (suc zero) = tt
has_vars (suc (suc zero)) = tt
has_vars (suc (suc (suc zero))) = (refl, (tt, omega arith, refl, refl), tt)
has_vars (suc (suc (suc (suc zero)))) = (refl, (tt, omega arith, refl, refl), tt)
has_vars (suc (suc (suc (suc (suc c))))) = tt

vars_formed : (c : Addr) → AllFormed classes 2 (params c) (declared c)
unfolding height
vars_formed zero = tt
vars_formed (suc zero) = tt
vars_formed (suc (suc zero)) = tt
vars_formed (suc (suc (suc zero))) = (refl, omega arith, tt)
vars_formed (suc (suc (suc (suc zero)))) = (refl, omega arith, tt)
vars_formed (suc (suc (suc (suc (suc c))))) = tt

ends : (c : Addr) → super_of c ≡ 0 → super_type c ≡ 0
ends zero e = refl
ends (suc zero) e = refl
ends (suc (suc zero)) e = absurd (omega (arith, e))
ends (suc (suc (suc zero))) e = refl
ends (suc (suc (suc (suc zero)))) e = absurd (omega (arith, e))
ends (suc (suc (suc (suc (suc c))))) e = refl

goes_on : (c : Addr) → super_of c ≢ 0 → super_type c ≢ 0
goes_on zero ne = absurd (ne refl)
goes_on (suc zero) ne = absurd (ne refl)
goes_on (suc (suc zero)) ne = omega arith
goes_on (suc (suc (suc zero))) ne = absurd (ne refl)
goes_on (suc (suc (suc (suc zero)))) ne = omega arith
goes_on (suc (suc (suc (suc (suc c))))) ne = absurd (ne refl)

checked-HasVars : HasVars classes 2 declared checked
checked-HasVars = record {
  has_vars = has_vars;
  vars_formed = vars_formed;
  ends = ends;
  goes_on = goes_on;
}

abbrev of_integers : Addr → Term
of_integers d = integer_term

element-Bound : (d : Addr) → member d (params 4) ≡ true → Bound checked ((6, 14) ∷ []) of_integers d
unfolding find_decl
element-Bound d m = (14, ground arith, (tt, omega arith, refl, refl, tt))

-- The variable of an Array<Integer> has the type Integer, the one inherited from Collection the type E.
entered_terms :
    inherited_vars classes declared 5 4 of_integers []
    ≡ done ((b'l' ∷ [], integer_term) ∷ (b'f' ∷ [], var 6) ∷ [])
unfolding inherited_vars
entered_terms = refl

register_ivars-inherited_vars_example :
    (es : Entries) × (inherited_vars classes declared 5 4 of_integers [] ≡ done es)
    × Entered checked es (register_ivars 2 5 16 ((6, 14) ∷ []) 16 [] checked)
register_ivars-inherited_vars_example =
    register_ivars-inherited_vars classes rank declared 2 5 checked 16 16 4 ((6, 14) ∷ [])
      of_integers [] [] classes-IsRanked checked-IsHierarchy checked-HasVars refl element-Bound tt
      (omega arith)
