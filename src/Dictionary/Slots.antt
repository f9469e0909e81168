-- ===== src/Dictionary/Slots.antt =====
-- One slot of a table (cmd/vm/Objects.cc), as a map from keys to values.
use valutron.Prelude.{ℕ, ◌≡◌, ◌≢◌, ◌⊎◌, inl, List, [], ◌∷◌, arith, ◌==◌, if◌then◌else◌}
use valutron.Dictionary.{Obj, Pair, Slot, insert_link, insert_slot, find_link, find_slot, hash_cmp}

-- An empty slot has no links, and no link has a nil key. Insertion keeps both.
abbrev pub NoNil : List Pair → Type 0
NoNil [] = Unit
NoNil ((k, v) ∷ links) = (k ≢ 0) × NoNil links

pub record IsSlot (s : Slot) : Type 0 where
  pub no_nil : NoNil s.links
  pub empty_end : (s.key ≢ 0) ⊎ (s.links ≡ [])

insert_link-NoNil :
    (k v : Obj) (links : List Pair) → k ≢ 0 → NoNil links → NoNil (insert_link k v links)
unfolding insert_link
insert_link-NoNil k v [] nz h = (nz, tt)
insert_link-NoNil k v ((one, two) ∷ links) nz h = ground (arith, insert_link-NoNil k v links nz h.1)

pub insert_slot-IsSlot : (k v : Obj) (s : Slot) → k ≢ 0 → IsSlot s → IsSlot (insert_slot k v s)
unfolding insert_slot
insert_slot-IsSlot k v s nz h = record {
  no_nil = ground (arith, h.no_nil, insert_link-NoNil k v s.links nz h.no_nil);
  empty_end = inl (ground arith);
}

module _ (hash_code : Obj → ℕ) where
  -- The hash code tells `k` from the key `j`.
  abbrev pub Apart : Obj → Obj → Type 0
  Apart k j = (hash_code k == hash_code j) ≡ (k == j)

  abbrev pub ApartLinks : Obj → List Pair → Type 0
  ApartLinks k [] = Unit
  ApartLinks k ((j, v) ∷ links) = Apart j k × ApartLinks k links

  abbrev pub ApartSlot : Obj → Slot → Type 0
  ApartSlot k s = ((s.key ≡ 0) ⊎ Apart s.key k) × ApartLinks k s.links

  find_link-insert_link :
      (k j v : Obj) (links : List Pair)
      → k ≢ 0
      → Apart k j
      → ApartLinks j links
      → (find_link (hash_cmp hash_code j) (insert_link k v links)).1
        ≡ (if k == j then v else (find_link (hash_cmp hash_code j) links).1)
  unfolding insert_link find_link
  find_link-insert_link k j v [] nz a h = ground arith
  find_link-insert_link k j v ((one, two) ∷ links) nz a h =
      ground (arith, find_link-insert_link k j v links nz a h.1)

  -- After an insertion the slot answers the new value for its key, and the old answers for others.
  pub find_slot-insert_slot :
      (k j v : Obj) (s : Slot)
      → k ≢ 0
      → IsSlot s
      → Apart k j
      → ApartSlot j s
      → (find_slot (hash_cmp hash_code j) (insert_slot k v s)).1
        ≡ (if k == j then v else (find_slot (hash_cmp hash_code j) s).1)
  unfolding insert_slot find_slot
  find_slot-insert_slot k j v s nz ok a h =
      ground (arith, find_link-insert_link k j v s.links nz a h.1, ok.empty_end)
