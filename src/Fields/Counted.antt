-- ===== src/Fields/Counted.antt =====
-- Which field primBasicAt of cmd/vm/Primitive.cc answers for a number, by counting the fields.
use valutron.Prelude.{
  ℕ, zero, suc, ◌^◌, ◌<◌, ◌≡◌, refl, ap, ◌∙◌, true, false, Option, none, some, List, [], ◌∷◌,
  length, get_elem?, arith, Bool-cases, inl, inr, leb,
}
use valutron.Prelude.Int.{ℤ, pos, negsuc}
use valutron.Outcome.{Outcome, done, or_dies}
use valutron.Word.{Word, is_smi, int_value, from_int, nil}
use valutron.Word.RoundTrip.{FitsSmi, from_int-IsSmi, int_value-from_int}
use valutron.Fields.{Objects, to_int, place_of, prim_basic_at}

-- The field of a number: the first has the number 1, and a number that no field has gives nil.
unfoldable pub field_of : List Word → ℤ → Word
field_of [] z = nil
field_of (v ∷ oops) (pos (suc zero)) = v
field_of (v ∷ oops) (pos (suc (suc n))) = field_of oops (pos (suc n))
field_of (v ∷ oops) (pos zero) = nil
field_of (v ∷ oops) (negsuc n) = nil

-- What `prim_basic_at` does with the fields and a number.
abbrev at_place : List Word → Option ℕ → Outcome Word
at_place oops o = elim o [ none ↦ done nil | some i ↦ or_dies (get_elem? oops i) ]

at_place-field_of :
    (oops : List Word) (z : ℤ) → at_place oops (place_of z (length oops)) ≡ done (field_of oops z)
unfolding place_of field_of
at_place-field_of [] (pos zero) = ground arith
at_place-field_of [] (pos (suc n)) = ground arith
at_place-field_of [] (negsuc n) = refl
at_place-field_of (v ∷ oops) (negsuc n) = refl
at_place-field_of (v ∷ oops) (pos zero) = ground arith
at_place-field_of (v ∷ oops) (pos (suc zero)) = ground arith
at_place-field_of (v ∷ oops) (pos (suc (suc n))) =
    let further : at_place oops (place_of (pos (suc n)) (length oops))
        ≡ done (field_of oops (pos (suc n))) =
      at_place-field_of oops (pos (suc n)) in
    elim (Bool-cases (leb (suc n) (length oops))) [ inl h ↦ ground arith | inr h ↦ ground arith ]

-- The integers of an `int`.
abbrev pub FitsInt : ℤ → Type 0
FitsInt (pos n) = n < 2 ^ 31
FitsInt (negsuc n) = n < 2 ^ 31

to_int-FitsInt : (z : ℤ) → FitsInt z → to_int z ≡ z
unfolding to_int
to_int-FitsInt (pos n) h = ground arith
to_int-FitsInt (negsuc n) h = ground arith

FitsInt-FitsSmi : (z : ℤ) → FitsInt z → FitsSmi z
FitsInt-FitsSmi (pos n) h = omega (arith, h)
FitsInt-FitsSmi (negsuc n) h = omega (arith, h)

-- If the receiver is an object with fields, and an integer is one of 32 bits, then `basicAt:` of the integer
-- answers the field of that number, counted from 1, and nil if no field has that number: the integer is 0,
-- negative, or more than the number of fields.
pub prim_basic_at-field_of :
    (objects : Objects) (obj : Word) (oops : List Word) (z : ℤ)
    → is_smi obj ≡ false
    → objects obj ≡ some oops
    → FitsInt z
    → prim_basic_at objects obj (from_int z) ≡ done (field_of oops z)
unfolding prim_basic_at
prim_basic_at-field_of objects obj oops z pointer here fits =
    let number : is_smi (from_int z) ≡ true = (from_int-IsSmi z).1 in
    let value : to_int (int_value (from_int z)) ≡ z =
      ap to_int (int_value-from_int z (FitsInt-FitsSmi z fits)) ∙ to_int-FitsInt z fits in
    rw (pointer, number, here, value) (at_place-field_of oops z)
