-- ===== src/Dictionary/Lookup.antt =====
-- The dictionary (cmd/vm/Objects.cc) as a map from keys to values.
use valutron.Prelude.{
  ℕ, zero, suc, ◌%◌, ◌<◌, ◌≡◌, ◌≢◌, inl, inr, refl, sym, subst, ap, ◌∙◌, false, [], ◌∷◌, arith,
  ◌==◌, if◌then◌else◌, length, set, length-set, Bool-cases, ==_iff,
}
use native.Mathlib.Nat.{mod-lt}
use valutron.Dictionary.{
  Obj, Slot, Table, new_with_size, insert, insert_slot, slot_at, find_slot, find_pair_by_fun,
  hash_cmp, symbol_insert, symbol_lookup,
}
use valutron.Dictionary.Slots.{IsSlot, insert_slot-IsSlot, Apart, ApartSlot, find_slot-insert_slot}

abbrev pub IsTable : Table → Type 0
IsTable [] = Unit
IsTable (s ∷ t) = IsSlot s × IsTable t

-- The hash code tells `k` from every key of the table.
abbrev pub ApartTable : (Obj → ℕ) → Obj → Table → Type 0
ApartTable hash_code k [] = Unit
ApartTable hash_code k (s ∷ t) = ApartSlot hash_code k s × ApartTable hash_code k t

slot_at-IsSlot : (t : Table) (i : ℕ) → IsTable t → i < length t → IsSlot (slot_at t i)
slot_at-IsSlot [] i h lt = absurd (omega arith)
slot_at-IsSlot (s ∷ t) zero h lt = h.0
slot_at-IsSlot (s ∷ t) (suc i) h lt = slot_at-IsSlot t i h.1 (omega arith)

slot_at-ApartSlot :
    (hash_code : Obj → ℕ) (k : Obj) (t : Table) (i : ℕ)
    → ApartTable hash_code k t
    → i < length t
    → ApartSlot hash_code k (slot_at t i)
slot_at-ApartSlot hash_code k [] i h lt = absurd (omega arith)
slot_at-ApartSlot hash_code k (s ∷ t) zero h lt = h.0
slot_at-ApartSlot hash_code k (s ∷ t) (suc i) h lt =
    slot_at-ApartSlot hash_code k t i h.1 (omega arith)

pub slot_at-set :
    (t : Table) (i j : ℕ) (s : Slot)
    → i < length t
    → slot_at (set t i s) j ≡ (if i == j then s else slot_at t j)
slot_at-set [] i j s lt = absurd (omega arith)
slot_at-set (x ∷ t) zero zero s lt = refl
slot_at-set (x ∷ t) zero (suc j) s lt = ground arith
slot_at-set (x ∷ t) (suc i) zero s lt = ground arith
slot_at-set (x ∷ t) (suc i) (suc j) s lt = ground (arith, slot_at-set t i j s)

set-IsTable : (t : Table) (i : ℕ) (s : Slot) → IsTable t → IsSlot s → IsTable (set t i s)
set-IsTable [] i s h k = tt
set-IsTable (x ∷ t) zero s h k = (k, h.1)
set-IsTable (x ∷ t) (suc i) s h k = (h.0, set-IsTable t i s h.1 k)

-- A new table holds nothing.
pub new_with_size-IsTable : (n : ℕ) → IsTable (new_with_size n)
unfolding new_with_size
new_with_size-IsTable zero = tt
new_with_size-IsTable (suc n) =
    (record { no_nil = tt; empty_end = inr refl }, new_with_size-IsTable n)

different_keys : (f : Obj → ℕ) (k j : Obj) → (f k == f j) ≡ false → (k == j) ≡ false
different_keys f k j h = elim (Bool-cases (k == j)) [
  | inl e ↦ let same = ap f ((==_iff k j).0 e) in absurd (ground arith)
  | inr e ↦ e
]

pub symbol_lookup-slot :
    (hash_code : Obj → ℕ) (j : Obj) (t : Table)
    → length t ≢ 0
    → symbol_lookup hash_code j t
      ≡ (find_slot (hash_cmp hash_code j) (slot_at t (hash_code j % length t))).1
unfolding symbol_lookup
symbol_lookup-slot hash_code j t nz =
    let no_zero : (length t == 0) ≡ false = ground arith in
    rw (no_zero, symbol_lookup, find_pair_by_fun)

pub symbol_insert-set :
    (hash_code : Obj → ℕ) (k v : Obj) (t : Table)
    → length t ≢ 0
    → symbol_insert hash_code k v t
      ≡ set t (hash_code k % length t) (insert_slot k v (slot_at t (hash_code k % length t)))
unfolding symbol_insert
symbol_insert-set hash_code k v t nz =
    let no_zero : (length t == 0) ≡ false = ground arith in rw (no_zero, symbol_insert, insert)

module _ (hash_code : Obj → ℕ) (t : Table) (some_slot : length t ≢ 0) (ok : IsTable t) where
  in_range : (hash : ℕ) → hash % length t < length t
  in_range hash = mod-lt hash (omega arith)

  -- In a table with some slot, the insertion of a key that is not nil keeps the table well formed
  -- (no link has a nil key, and an empty slot has no links) and keeps its size.
  pub symbol_insert-IsTable :
      (k v : Obj)
      → k ≢ 0
      → IsTable (symbol_insert hash_code k v t)
        × (length (symbol_insert hash_code k v t) ≡ length t)
  unfolding symbol_insert
  symbol_insert-IsTable k v nz =
      let i = hash_code k % length t in
      let s = insert_slot k v (slot_at t i) in
      let no_zero : (length t == 0) ≡ false = ground arith in
      rw no_zero (
        set-IsTable t i s ok (
            insert_slot-IsSlot k v (slot_at t i) nz
              (slot_at-IsSlot t i ok (in_range (hash_code k)))),
        length-set t i s,
      )

  -- In a well formed table with some slot: if the key inserted is not nil, and the hash code tells
  -- the looked up key from the inserted one and from all keys of the table, then after the insertion
  -- the lookup answers the new value for the inserted key and the old answer for any other.
  pub symbol_lookup-symbol_insert :
      (k j v : Obj)
      → k ≢ 0
      → Apart hash_code k j
      → ApartTable hash_code j t
      → symbol_lookup hash_code j (symbol_insert hash_code k v t)
        ≡ (if k == j then v else symbol_lookup hash_code j t)
  symbol_lookup-symbol_insert k j v nz a apart =
      let i = hash_code k % length t in
      let i' = hash_code j % length t in
      let s = insert_slot k v (slot_at t i) in
      let size = length-set t i s in
      let nz' : length (set t i s) ≢ 0 = λ e. some_slot (sym size ∙ e) in
      let inside = in_range (hash_code k) in
      rw
        (
          symbol_insert-set hash_code k v t some_slot,
          symbol_lookup-slot hash_code j (set t i s) nz',
          size,
          slot_at-set t i i' s inside,
          symbol_lookup-slot hash_code j t some_slot,
        )
        (elim (Bool-cases (i == i')) [
          | inl here ↦
              let same : i ≡ i' = ground arith in
              let found =
                find_slot-insert_slot hash_code k j v (slot_at t i) nz
                  (slot_at-IsSlot t i ok inside) a
                  (slot_at-ApartSlot hash_code j t i apart inside) in
              rw here (
                subst
                  (λ n.
                    (find_slot (hash_cmp hash_code j) s).1
                    ≡ (if k == j then v else (find_slot (hash_cmp hash_code j) (slot_at t n)).1))
                  same found)
          | inr there ↦
              let other = different_keys (λ x. hash_code x % length t) k j there in
              rw (there, other)
        ])
