-- ===== src/Dictionary/Interning.antt =====
-- One symbol for each string: fromString of cmd/vm/Objects.cc.
use native.Mathlib.Nat.{mod-lt}
use valutron.Prelude.{
  ℕ, zero, suc, ◌%◌, ◌^◌, ◌<◌, ◌≤◌, ◌≡◌, ◌≢◌, refl, sym, ◌∙◌, ap, Bool, true, not, List, [], ◌∷◌,
  length, set, arith, ◌==◌, if◌then◌else◌, length-set, ℕ_discrete,
}
use valutron.CodeGen.{Name}
use valutron.Scope.Names.{name_eq_refl, name_eq_sound}
use valutron.Dictionary.Lookup.{slot_at-set}
use valutron.Dictionary.{
  Obj, Pair, Slot, Table, slot_at, insert, insert_slot, insert_link, find_link, find_slot,
  find_pair_by_fun,
}
use valutron.Dictionary.Symbols.{Symbols, until_null, scale, str_hash, str_test, from_string}

-- The loop of `strHash` has ended after four rounds.
pub scale_bound : (hash : ℕ) → hash < 2 ^ 31 → scale 4 hash ≤ 2 ^ 24
unfolding scale
scale_bound hash h = ground arith

-- A test that is false of the keys in a table, and a test that is true of a new key and else the same.
module _ (fun fun' : Obj → Bool) (new : Obj) (other_than_nil : new ≢ 0) (holds : fun' new ≡ true)
    (agree : (key : Obj) → key ≢ new → fun' key ≡ fun key) where
  find_link-insert_link_new :
      (links : List Pair)
      → (find_link fun links).0 ≡ 0
      → (find_link fun' (insert_link new 0 links)).0 ≡ new
  unfolding find_link insert_link
  find_link-insert_link_new [] h = ground arith
  find_link-insert_link_new ((one, two) ∷ links) h =
      ground (arith, agree one, find_link-insert_link_new links)

  find_slot-insert_slot_new :
      (s : Slot) → (find_slot fun s).0 ≡ 0 → (find_slot fun' (insert_slot new 0 s)).0 ≡ new
  unfolding find_slot insert_slot
  find_slot-insert_slot_new s h = ground (arith, agree s.key, find_link-insert_link_new s.links)

find_link-holds :
    (fun : Obj → Bool) (links : List Pair)
    → (find_link fun links).0 ≢ 0
    → fun (find_link fun links).0 ≡ true
unfolding find_link
find_link-holds fun [] h = absurd (h refl)
find_link-holds fun ((one, two) ∷ links) h = ground (arith, find_link-holds fun links)

-- What `findPairByFun` finds passes the test.
find_pair_by_fun-holds :
    (hash : ℕ) (fun : Obj → Bool) (t : Table)
    → (find_pair_by_fun hash fun t).0 ≢ 0
    → fun (find_pair_by_fun hash fun t).0 ≡ true
unfolding find_pair_by_fun find_slot
find_pair_by_fun-holds hash fun t h =
    let slot = slot_at t (hash % length t) in ground (arith, find_link-holds fun slot.links)

-- What `fromString` finds, and what it makes.
abbrev found_in : Name → Symbols → Obj
found_in a_string s = (find_pair_by_fun (str_hash a_string) (str_test s.text a_string) s.table).0

abbrev with_symbol : Obj → Name → Symbols → Symbols
with_symbol new a_string s = record {
  text = λ obj. if obj == new then until_null a_string else s.text obj;
  table = insert (str_hash a_string) new 0 s.table;
}

choose_found :
    {A : Type 0} (found : Obj) (x y : A) → found ≢ 0 → (if not (found == 0) then x else y) ≡ x
choose_found zero x y h = absurd (h refl)
choose_found (suc found) x y h = ground arith

from_string_found :
    (new : Obj) (a_string : Name) (s : Symbols)
    → found_in a_string s ≢ 0
    → from_string new a_string s ≡ (s, found_in a_string s)
unfolding from_string
from_string_found new a_string s h =
    choose_found (found_in a_string s) (s, found_in a_string s) (with_symbol new a_string s, new) h

from_string_made :
    (new : Obj) (a_string : Name) (s : Symbols)
    → found_in a_string s ≡ 0
    → from_string new a_string s ≡ (with_symbol new a_string s, new)
unfolding from_string
from_string_made new a_string s h = rw h refl

-- The symbol that is answered for a string has the string, up to its first null, for its text, and no object
-- but this symbol gets another text.
pub from_string-text :
    (new : Obj) (a_string : Name) (s : Symbols)
    → ((from_string new a_string s).0.text (from_string new a_string s).1 ≡ until_null a_string)
      × ((obj : Obj)
          → obj ≢ (from_string new a_string s).1
          → (from_string new a_string s).0.text obj ≡ s.text obj)
unfolding str_test
from_string-text new a_string s = elim (ℕ_discrete (found_in a_string s) 0) [
  | yes none_there ↦
      rw (from_string_made new a_string s none_there) (ground arith, λ obj other. ground arith)
  | no there ↦ rw (from_string_found new a_string s there) (
    name_eq_sound (s.text (found_in a_string s)) (until_null a_string)
        (find_pair_by_fun-holds (str_hash a_string) (str_test s.text a_string) s.table there),
    λ obj other. refl,
  )
]

-- Insertion and search in a table with a slot go by the slot of the hash code.
insert_at :
    (hash : ℕ) (key value : Obj) (t : Table)
    → 0 < length t
    → insert hash key value t
      ≡ set t (hash % length t) (insert_slot key value (slot_at t (hash % length t)))
unfolding insert
insert_at hash key value t size = ground arith

find_at :
    (hash : ℕ) (fun : Obj → Bool) (t : Table)
    → 0 < length t
    → find_pair_by_fun hash fun t ≡ find_slot fun (slot_at t (hash % length t))
unfolding find_pair_by_fun
find_at hash fun t size = ground arith

find_pair_by_fun-insert :
    (hash : ℕ) (fun : Obj → Bool) (key value : Obj) (t : Table)
    → 0 < length t
    → find_pair_by_fun hash fun (insert hash key value t)
      ≡ find_slot fun (insert_slot key value (slot_at t (hash % length t)))
find_pair_by_fun-insert hash fun key value t size =
    let i = hash % length t in
    let slot = insert_slot key value (slot_at t i) in
    let same : length (set t i slot) ≡ length t = length-set t i slot in
    let there : slot_at (set t i slot) i ≡ slot =
      slot_at-set t i i slot (mod-lt hash size) ∙ ground arith in
    rw (insert_at hash key value t size)
      (find_at hash fun (set t i slot) (omega (arith, same)) ∙ rw same (ap (find_slot fun) there))

-- The symbol that is made is found.
with_symbol-found :
    (new : Obj) (a_string : Name) (s : Symbols)
    → new ≢ 0
    → 0 < length s.table
    → found_in a_string s ≡ 0
    → found_in a_string (with_symbol new a_string s) ≡ new
unfolding str_test
with_symbol-found new a_string s nz size absent =
    let hash = str_hash a_string in
    let slot = slot_at s.table (hash % length s.table) in
    let fun = str_test s.text a_string in
    let fun' = str_test (with_symbol new a_string s).text a_string in
    let holds : fun' new ≡ true = ground (arith, name_eq_refl (until_null a_string)) in
    let agree : (key : Obj) → key ≢ new → fun' key ≡ fun key = λ key other. ground arith in
    let before : (find_slot fun slot).0 ≡ 0 =
      ap (λ (p : Pair). p.0) (sym (find_at hash fun s.table size)) ∙ absent in
    ap (λ (p : Pair). p.0) (find_pair_by_fun-insert hash fun' new 0 s.table size)
    ∙ find_slot-insert_slot_new fun fun' new nz holds agree slot before

-- If the table has a slot and a new object is not nil, a string that has been given a symbol is given it again,
-- and nothing else changes.
pub from_string-stable :
    (new new' : Obj) (a_string : Name) (s : Symbols)
    → new ≢ 0
    → 0 < length s.table
    → from_string new' a_string (from_string new a_string s).0 ≡ from_string new a_string s
from_string-stable new new' a_string s nz size = elim (ℕ_discrete (found_in a_string s) 0) [
  | yes none_there ↦
      let made = with_symbol new a_string s in
      let found : found_in a_string made ≡ new =
        with_symbol-found new a_string s nz size none_there in
      rw (from_string_made new a_string s none_there)
        (from_string_found new' a_string made (λ e. nz (sym found ∙ e)) ∙ ap (λ o. (made, o)) found)
  | no there ↦ rw (from_string_found new a_string s there) (from_string_found new' a_string s there)
]
