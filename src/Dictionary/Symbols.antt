-- ===== src/Dictionary/Symbols.antt =====
-- The table of symbols: strHash and SymbolOopDesc::fromString of cmd/vm/Objects.cc.
use valutron.Prelude.{
  ℕ, zero, suc, ◌+◌, ◌-◌, ◌/◌, ◌^◌, Bool, not, [], ◌∷◌, ltb, leb, ◌==◌, if◌then◌else◌,
}
use valutron.Prelude.Int.{ℤ, pos, negsuc, ◌+ℤ◌}
use valutron.CodeGen.{Name}
use valutron.Scope.{name_eq}
use valutron.Dictionary.{Obj, Table, insert, find_pair_by_fun}

-- A `char` is signed.
abbrev pub char_value : ℕ → ℤ
char_value c = if ltb c 128 then pos c else negsuc (255 - c)

-- The loop up to the first null. The sum is taken not to overflow `int32_t`, as it does not for a string of
-- less than 2 ^ 24 bytes.
unfoldable pub hash_sum : Name → ℤ → ℤ
unfolding ◌+ℤ◌
hash_sum [] hash = hash
hash_sum (zero ∷ str) hash = hash
hash_sum (suc c ∷ str) hash = hash_sum str (hash +ℤ char_value (suc c))

-- `if (hash < 0) hash = -hash`.
unfoldable pub magnitude : ℤ → ℕ
magnitude (pos n) = n
magnitude (negsuc n) = n + 1

-- The loop that scales the hash code, on fuel.
unfoldable pub scale : ℕ → ℕ → ℕ
scale zero hash = hash
scale (suc fuel) hash = if leb hash (2 ^ 24) then hash else scale fuel (hash / 4)

-- Four rounds are enough for an `int32_t`.
unfoldable pub str_hash : Name → ℕ
unfolding scale magnitude hash_sum
str_hash str = scale 4 (magnitude (hash_sum str (pos 0)))

-- A string as `strcmp` and `strncpy` see it.
unfoldable pub until_null : Name → Name
until_null [] = []
until_null (zero ∷ str) = []
until_null (suc c ∷ str) = suc c ∷ until_null str

-- The texts of the symbol objects, up to the first null, and the symbol table.
pub record Symbols : Type 0 where
  pub text : Obj → Name
  pub table : Table

unfoldable pub str_test : (Obj → Name) → Name → Obj → Bool
unfolding name_eq until_null
str_test text a_string key = name_eq (text key) (until_null a_string)

-- `fromString`, with the address that the memory would give to a new object.
unfoldable pub from_string : Obj → Name → Symbols → Symbols × Obj
unfolding find_pair_by_fun str_test str_hash insert until_null
from_string new a_string s =
    let found = (find_pair_by_fun (str_hash a_string) (str_test s.text a_string) s.table).0 in
    let made : Symbols = record {
      text = λ obj. if obj == new then until_null a_string else s.text obj;
      table = insert (str_hash a_string) new 0 s.table;
    } in
    if not (found == 0) then (s, found) else (made, new)
