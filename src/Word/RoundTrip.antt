-- ===== src/Word/RoundTrip.antt =====
-- The coding of small integers in tagged words (cmd/vm/Oops.hh).
use valutron.Prelude.{◌%◌, ◌^◌, ◌<◌, ◌≡◌, true, false, arith}
use valutron.Prelude.Int.{ℤ, pos, negsuc}
use valutron.Word.{Word, is_smi, is_ptr, int_value, from_int}

-- The integers of 61 bits.
abbrev pub FitsSmi : ℤ → Type 0
FitsSmi (pos n) = n < 2 ^ 60
FitsSmi (negsuc n) = n < 2 ^ 60

-- A word that carries a small integer.
abbrev pub IsSmi : Word → Type 0
IsSmi w = (w < 2 ^ 64) × (w % 8 ≡ 1)

-- Whatever integer is coded, the word is tagged as a small integer and not as a pointer.
pub from_int-IsSmi :
    (z : ℤ) → IsSmi (from_int z) × (is_smi (from_int z) ≡ true) × (is_ptr (from_int z) ≡ false)
unfolding from_int is_smi is_ptr
from_int-IsSmi (pos n) = ground arith
from_int-IsSmi (negsuc n) = ground arith

-- An integer of 61 bits, coded by `VT_fromInt`, is read back unchanged by `VT_intValue`.
pub int_value-from_int : (z : ℤ) → FitsSmi z → int_value (from_int z) ≡ z
unfolding int_value from_int
int_value-from_int (pos n) h = ground arith
int_value-from_int (negsuc n) h = ground arith

-- Every word of 64 bits with the tag of a small integer is the coding of the value that
-- `VT_intValue` reads, and that value has 61 bits.
pub from_int-int_value : (w : Word) → IsSmi w → (from_int (int_value w) ≡ w) × FitsSmi (int_value w)
unfolding int_value from_int
from_int-int_value w h = ground arith
