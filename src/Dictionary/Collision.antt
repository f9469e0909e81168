-- ===== src/Dictionary/Collision.antt =====
-- Two keys with one hash code in `insert` and `symbolLookup` of cmd/vm/Objects.cc.
use native.Mathlib.Nat.{mod-lt}
use valutron.Prelude.{ℕ, ◌%◌, ◌≡◌, ◌≢◌, sym, ◌∙◌, true, arith, ◌==◌, length, set, length-set}
use valutron.Dictionary.{
  Obj, Slot, Table, slot_at, insert_slot, find_slot, symbol_insert, symbol_lookup, hash_cmp,
}
use valutron.Dictionary.Lookup.{symbol_insert-set, symbol_lookup-slot, slot_at-set}

find_slot-first :
    (hash_code : Obj → ℕ) (k j w : Obj) (s : Slot)
    → s.key ≡ k
    → k ≢ 0
    → k ≢ j
    → hash_code k ≡ hash_code j
    → (find_slot (hash_cmp hash_code j) (insert_slot j w s)).1 ≡ s.value
unfolding find_slot insert_slot
find_slot-first hash_code k j w s first nz ne same =
    let same' : hash_code s.key ≡ hash_code j = rw first same in ground arith

-- If the first key of the slot that a key selects is another key, not nil, with the same hash code,
-- then after an insertion of the key a lookup of it still answers the value of the other.
pub symbol_lookup-collision :
    (hash_code : Obj → ℕ) (t : Table) (k j w : Obj)
    → length t ≢ 0
    → (slot_at t (hash_code j % length t)).key ≡ k
    → k ≢ 0
    → k ≢ j
    → hash_code k ≡ hash_code j
    → symbol_lookup hash_code j (symbol_insert hash_code j w t)
      ≡ (slot_at t (hash_code j % length t)).value
symbol_lookup-collision hash_code t k j w some_slot first nz ne same =
    let i = hash_code j % length t in
    let s = insert_slot j w (slot_at t i) in
    let size = length-set t i s in
    let nz' : length (set t i s) ≢ 0 = λ e. some_slot (sym size ∙ e) in
    let here : (i == i) ≡ true = ground arith in
    rw
      (
        symbol_insert-set hash_code j w t some_slot,
        symbol_lookup-slot hash_code j (set t i s) nz',
        size,
        slot_at-set t i i s (mod-lt (hash_code j) (omega arith)),
        here,
      )
      (find_slot-first hash_code k j w (slot_at t i) first nz ne same)
