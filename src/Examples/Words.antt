-- ===== src/Examples/Words.antt =====
-- Small integers: 3 is the word 25, 4 the word 33.
use valutron.Prelude.{◌^◌, ◌*◌, ◌+◌, ◌-◌, ◌≡◌, ◌≢◌, refl, some, arith}
use valutron.Prelude.Int.{◌+ℤ◌, ◌*ℤ◌}
use valutron.Word.{Word, int_value, nil}
use valutron.Word.RoundTrip.{IsSmi}
use valutron.Smi.{prim_add, prim_multiply, Booleans}
use valutron.Smi.Arith.{prim_add_lem, prim_multiply_lem}

abbrev three : Word
three = 25

abbrev four : Word
four = 33

three-IsSmi : IsSmi 25
three-IsSmi = (omega arith, refl)

four-IsSmi : IsSmi 33
four-IsSmi = (omega arith, refl)

-- The largest small integer, and 2 ^ 59.
abbrev largest : Word
largest = (2 ^ 60 - 1) * 8 + 1

largest-IsSmi : IsSmi largest
largest-IsSmi = (omega arith, refl)

abbrev flags : Booleans
flags = record { obj_true = 16; obj_false = 24 }

prim_add_lem_example :
    (prim_add 25 33 ≢ nil) × (int_value (prim_add 25 33) ≡ int_value 25 +ℤ int_value 33)
unfolding int_value ◌+ℤ◌
prim_add_lem_example = prim_add_lem 25 33 three-IsSmi four-IsSmi (omega arith)

prim_multiply_lem_example :
    (w : Word) × (prim_multiply 25 33 ≡ some w)
    × (w ≢ nil)
    × (int_value w ≡ int_value 25 *ℤ int_value 33)
unfolding int_value ◌*ℤ◌
prim_multiply_lem_example = prim_multiply_lem 25 33 three-IsSmi four-IsSmi (omega arith)
