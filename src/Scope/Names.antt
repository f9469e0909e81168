-- ===== src/Scope/Names.antt =====
-- Equality of names.
use valutron.Prelude.{◌≡◌, refl, true, [], ◌∷◌, arith}
use valutron.CodeGen.{Name}
use valutron.Scope.{name_eq}

pub name_eq_refl : (a : Name) → name_eq a a ≡ true
unfolding name_eq
name_eq_refl [] = refl
name_eq_refl (c ∷ a) = ground (arith, name_eq_refl a)

pub name_eq_sound : (a b : Name) → name_eq a b ≡ true → a ≡ b
unfolding name_eq
name_eq_sound [] [] h = refl
name_eq_sound [] (d ∷ b) h = absurd (ground arith)
name_eq_sound (c ∷ a) [] h = absurd (ground arith)
name_eq_sound (c ∷ a) (d ∷ b) h = ground (arith, name_eq_sound a b)
