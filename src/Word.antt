-- ===== src/Word.antt =====
-- Tagged machine words: the macros and the `OopRef` queries of cmd/vm/Oops.hh.
-- A word is a number below 2 ^ 64; `intptr_t` reads it in two's complement.
pub mod RoundTrip
use valutron.Prelude.{ℕ, ◌+◌, ◌-◌, ◌*◌, ◌/◌, ◌%◌, ◌^◌, ◌<◌, ◌≡◌, Bool, ltb, ◌==◌, if◌then◌else◌}
use valutron.Prelude.Int.{ℤ, pos, negsuc}

abbrev pub Word : Type 0
Word = ℕ

-- The signed value of a 64-bit pattern, and the pattern of a value reduced modulo 2 ^ 64.
unfoldable pub signed : Word → ℤ
signed w = if ltb w (2 ^ 63) then pos w else negsuc (2 ^ 64 - 1 - w)

unfoldable pub unsigned : ℤ → Word
unsigned (pos n) = n % 2 ^ 64
unsigned (negsuc n) = 2 ^ 64 - 1 - n % 2 ^ 64

-- `VT_tag`: the three low bits.
unfoldable pub tag : Word → ℕ
tag w = w % 8

unfoldable pub is_ptr : Word → Bool
unfolding tag
is_ptr w = tag w == 0

unfoldable pub is_smi : Word → Bool
unfolding tag
is_smi w = tag w == 1

-- `VT_intValue`: the arithmetic shift right by three.
unfoldable pub int_value : Word → ℤ
unfolding signed
int_value w = if ltb w (2 ^ 63) then pos (w / 8) else negsuc ((2 ^ 64 - 1 - w) / 8)

-- `VT_fromInt`: shift left by three and set the low bit, which the shift has cleared.
unfoldable pub from_int : ℤ → Word
unfolding unsigned
from_int z = (unsigned z * 8) % 2 ^ 64 + 1

-- `Oop::nil ()` is the null word.
abbrev pub nil : Word
nil = 0

unfoldable pub is_nil : Word → Bool
is_nil w = w == 0
