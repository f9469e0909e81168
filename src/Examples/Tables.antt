-- ===== src/Examples/Tables.antt =====
-- A table of two slots. The hash code of an object is its address, or its address without the last
-- digit, so that 42 and 47 collide.
use valutron.Prelude.{ℕ, ◌/◌, ◌≡◌, refl, inl, inr, [], ◌∷◌, arith, length, ◌==◌, if◌then◌else◌}
use valutron.CodeGen.{Name}
use valutron.Dictionary.{Obj, Slot, Table, symbol_insert, symbol_lookup, empty_slot}
use valutron.Dictionary.Symbols.{Symbols, from_string}
use valutron.Dictionary.Interning.{from_string-stable}
use valutron.Dictionary.Lookup.{IsTable, symbol_insert-IsTable, symbol_lookup-symbol_insert}
use valutron.Dictionary.Collision.{symbol_lookup-collision}

abbrev address : Obj → ℕ
address x = x

abbrev tens : Obj → ℕ
tens x = x / 10

abbrev holding : Slot
holding = record { key = 42; value = 5; links = [] }

abbrev two_slots : Table
two_slots = holding ∷ empty_slot ∷ []

two_slots-IsTable : IsTable two_slots
two_slots-IsTable = (
  record { no_nil = tt; empty_end = inl (omega arith) },
  (record { no_nil = tt; empty_end = inr refl }, tt),
)

symbol_insert-IsTable_example :
    IsTable (symbol_insert address 44 6 two_slots)
    × (length (symbol_insert address 44 6 two_slots) ≡ length two_slots)
symbol_insert-IsTable_example =
    symbol_insert-IsTable address two_slots (omega arith) two_slots-IsTable 44 6 (omega arith)

symbol_lookup-symbol_insert_example :
    symbol_lookup address 42 (symbol_insert address 44 6 two_slots)
    ≡ (if 44 == 42 then 6 else symbol_lookup address 42 two_slots)
symbol_lookup-symbol_insert_example =
    symbol_lookup-symbol_insert address two_slots (omega arith) two_slots-IsTable 44 42 6
      (omega arith) refl ((inr refl, tt), ((inl refl, tt), tt))

symbol_lookup-collision_example : symbol_lookup tens 47 (symbol_insert tens 47 6 two_slots) ≡ 5
symbol_lookup-collision_example =
    symbol_lookup-collision tens two_slots 42 47 6 (omega arith) refl (omega arith) (omega arith)
      refl

-- A symbol table of two slots without a symbol, and the strings "at" and "at:", of which the first is interned.
abbrev no_symbols : Symbols
no_symbols = record { text = λ obj. []; table = empty_slot ∷ empty_slot ∷ [] }

abbrev at_name : Name
at_name = 97 ∷ 116 ∷ []

abbrev at_colon : Name
at_colon = 97 ∷ 116 ∷ 58 ∷ []

abbrev one_symbol : Symbols
one_symbol = (from_string 8 at_name no_symbols).0

from_string-stable_example :
    from_string 16 at_name (from_string 8 at_name no_symbols).0 ≡ from_string 8 at_name no_symbols
from_string-stable_example = from_string-stable 8 16 at_name no_symbols (omega arith) (omega arith)
