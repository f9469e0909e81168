-- ===== src/Fields.antt =====
-- Fields of objects and bytes of strings: primBasicAt, primbasicAtPut, primByteAt, primByteAtPut, primCopyFromTo,
-- primStringCat and primStringSize of cmd/vm/Primitive.cc, with the accessors of Oops.hh. The objects are a
-- function of their address; a string is the list of its bytes.
pub mod Access
pub mod Counted
pub mod Strings
use valutron.Prelude.{
  ℕ, suc, ◌+◌, ◌-◌, ◌%◌, ◌^◌, Bool, true, false, not, ◌||◌, ◌&&◌, Option, none, some, List, [], ◌∷◌,
  ◌++◌, length, get_elem?, set, ltb, leb, ◌==◌, if◌then◌else◌,
}
use valutron.Prelude.Int.{ℤ, pos, negsuc}
use valutron.Outcome.{Outcome, done, dies, ◌>>=◌, or_dies}
use valutron.Word.{Word, is_smi, int_value, from_int, nil}

-- The fields of the object at a word; `none` where there is none.
abbrev pub Objects : Type 0
Objects = Word → Option (List Word)

unfoldable pub write_fields : Objects → Word → List Word → Objects
write_fields objects obj oops other = if other == obj then some oops else objects other

-- The conversion of an integer to `int`, which has 32 bits.
unfoldable pub to_int : ℤ → ℤ
to_int (pos n) =
    if ltb (n % 2 ^ 32) (2 ^ 31) then pos (n % 2 ^ 32) else negsuc (2 ^ 32 - 1 - n % 2 ^ 32)
to_int (negsuc n) =
    if ltb (n % 2 ^ 32) (2 ^ 31) then negsuc (n % 2 ^ 32) else pos (2 ^ 32 - 1 - n % 2 ^ 32)

-- Not `i < 1 || i > size`: the place of a field of that index, counted from 0.
unfoldable pub place_of : ℤ → ℕ → Option ℕ
place_of (pos i) size = if leb 1 i && leb i size then some (i - 1) else none
place_of (negsuc i) size = none

unfoldable pub prim_basic_at : Objects → Word → Word → Outcome Word
unfolding is_smi int_value to_int place_of
prim_basic_at objects obj index =
    if is_smi obj then done nil else if not (is_smi index) then done nil else (do
      oops ← or_dies (objects obj)
      elim (place_of (to_int (int_value index)) (length oops)) [
        | none ↦ done nil
        | some i ↦ or_dies (get_elem? oops i)
      ])

-- The objects after it, and the answer.
unfoldable pub prim_basic_at_put : Objects → Word → Word → Word → Outcome (Objects × Word)
unfolding is_smi int_value to_int place_of write_fields
prim_basic_at_put objects obj index val =
    if is_smi obj
    then done (objects, nil)
    else if not (is_smi index)
    then done (objects, nil)
    else (do
      oops ← or_dies (objects obj)
      elim (place_of (to_int (int_value index)) (length oops)) [
        | none ↦ done (objects, nil)
        | some i ↦ done (write_fields objects obj (set oops i val), obj)
      ])
