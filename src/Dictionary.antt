-- ===== src/Dictionary.antt =====
-- Hash dictionaries: `DictionaryOopDesc` of cmd/vm/Objects.cc. The table's triples (key, value, link)
-- are slots, and the association links behind a slot are a list: nothing else points at them. A key or
-- value is an object's address, 0 is nil. The hash code of an object is a function.
pub mod Slots
pub mod Lookup
pub mod Collision
pub mod Symbols
pub mod Interning
use valutron.Prelude.{
  ℕ, zero, suc, ◌%◌, ◌≡◌, Bool, true, false, not, ◌&&◌, List, [], ◌∷◌, Option, none, some, length,
  get_elem?, set, ◌==◌, ltb, if◌then◌else◌,
}

abbrev pub Obj : Type 0
Obj = ℕ

abbrev pub Pair : Type 0
Pair = Obj × Obj

pub record Slot : Type 0 where
  pub key : Obj
  pub value : Obj
  pub links : List Pair

abbrev pub Table : Type 0
Table = List Slot

abbrev pub empty_slot : Slot
empty_slot = record { key = 0; value = 0; links = [] }

-- `newWithSize`: that many slots, all nil.
unfoldable pub new_with_size : ℕ → Table
new_with_size zero = []
new_with_size (suc n) = empty_slot ∷ new_with_size n

-- The `while (1)` over the links of a slot: the value of a link with the same key is replaced, and a key
-- that no link has goes into a new link at the end.
unfoldable pub insert_link : Obj → Obj → List Pair → List Pair
insert_link key value [] = (key, value) ∷ []
insert_link key value ((one, two) ∷ links) =
    if one == key then (one, value) ∷ links else (one, two) ∷ insert_link key value links

unfoldable pub insert_slot : Obj → Obj → Slot → Slot
unfolding insert_link
insert_slot key value s =
    if s.key == 0
    then record s { key = key; value = value }
    else if s.key == key
    then record s { key = key; value = value }
    else record s { links = insert_link key value s.links }

abbrev pub slot_at : Table → ℕ → Slot
slot_at [] i = empty_slot
slot_at (s ∷ t) zero = s
slot_at (s ∷ t) (suc i) = slot_at t i

-- `insert`. A table with no slot prints an error and is left.
unfoldable pub insert : ℕ → Obj → Obj → Table → Table
unfolding insert_slot
insert hash key value t =
    let i = hash % length t in
    if length t == 0 then t else set t i (insert_slot key value (slot_at t i))

-- The search of `findPairByFun` through a slot's links, and through the slot.
unfoldable pub find_link : (Obj → Bool) → List Pair → Pair
find_link fun [] = (0, 0)
find_link fun ((key, value) ∷ links) =
    if not (key == 0) && fun key then (key, value) else find_link fun links

unfoldable pub find_slot : (Obj → Bool) → Slot → Pair
unfolding find_link
find_slot fun s = if not (s.key == 0) && fun s.key then (s.key, s.value) else find_link fun s.links

unfoldable pub find_pair_by_fun : ℕ → (Obj → Bool) → Table → Pair
unfolding find_slot
find_pair_by_fun hash fun t =
    if length t == 0 then (0, 0) else find_slot fun (slot_at t (hash % length t))

module _ (hash_code : Obj → ℕ) where
  -- `hashCmp` compares the hash codes of two objects, not the objects.
  abbrev pub hash_cmp : Obj → Obj → Bool
  hash_cmp match key = hash_code key == hash_code match

  unfoldable pub symbol_insert : Obj → Obj → Table → Table
  unfolding insert
  symbol_insert key value t = insert (hash_code key) key value t

  unfoldable pub symbol_lookup : Obj → Table → Obj
  unfolding find_pair_by_fun
  symbol_lookup a_symbol t = (find_pair_by_fun (hash_code a_symbol) (hash_cmp a_symbol) t).1
