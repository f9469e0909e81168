-- ===== src/Examples/Objects.antt =====
-- Concrete instances of the theorems on the fields of objects and on strings.
use valutron.Prelude.{
  ℕ, ◌≡◌, ◌≢◌, refl, true, none, some, List, [], ◌∷◌, arith, ◌==◌, if◌then◌else◌,
}
use valutron.Prelude.Int.{pos}
use valutron.Outcome.{done}
use valutron.Word.{Word, is_smi, from_int, int_value}
use valutron.Fields.{Objects, to_int, place_of, prim_basic_at, prim_basic_at_put}
use valutron.Fields.Access.{place, prim_basic_at_put-prim_basic_at}
use valutron.Fields.Counted.{field_of, prim_basic_at-field_of}
use valutron.Fields.Strings.{
  c_string, prim_copy_from_to, prim_string_cat, prim_copy_from_to-prim_string_cat,
}

-- One object of two fields, and the index 2.
abbrev fields : List Word
fields = 9 ∷ 25 ∷ []

abbrev one_object : Objects
one_object = λ obj. if obj == 8 then some fields else none

prim_basic_at-field_of_example : prim_basic_at one_object 8 (from_int (pos 2)) ≡ done 25
unfolding is_smi field_of
prim_basic_at-field_of_example =
    prim_basic_at-field_of one_object 8 fields (pos 2) refl refl (omega arith)

prim_basic_at_put-prim_basic_at_example :
    (after : Objects) × (prim_basic_at_put one_object 8 17 33 ≡ done (after, 8))
    × (prim_basic_at after 8 17 ≡ done 33)
    × ((other : Word)
        → is_smi other ≡ true
        → place other fields ≢ some 1
        → prim_basic_at after 8 other ≡ prim_basic_at one_object 8 other)
    × ((obj' other : Word)
        → obj' ≢ 8
        → prim_basic_at after obj' other ≡ prim_basic_at one_object obj' other)
unfolding is_smi place_of to_int int_value
prim_basic_at_put-prim_basic_at_example =
    prim_basic_at_put-prim_basic_at one_object 8 17 33 fields 1 refl refl refl refl

abbrev abc : List ℕ
abc = b'a' ∷ b'b' ∷ b'c' ∷ []

abbrev abc_bytes : List ℕ
abc_bytes = b'a' ∷ b'b' ∷ b'c' ∷ 0 ∷ b'd' ∷ []

prim_copy_from_to-prim_string_cat_example :
    (a : List ℕ) × (b : List ℕ) × (r : List ℕ) × (prim_copy_from_to abc_bytes
        (from_int (pos 1))
        (from_int (pos 2))
      ≡ done a)
    × (prim_copy_from_to abc_bytes (from_int (pos 3)) (from_int (pos 3)) ≡ done b)
    × (prim_string_cat a b ≡ done r)
    × (c_string r ≡ done abc)
unfolding c_string
prim_copy_from_to-prim_string_cat_example =
    prim_copy_from_to-prim_string_cat abc_bytes abc 2 refl (omega arith) (omega arith)
