-- ===== src/Fields/Access.antt =====
-- Reading and writing fields by primBasicAt and primbasicAtPut of cmd/vm/Primitive.cc.
use valutron.Prelude.{
  ℕ, zero, suc, ◌<◌, ◌≡◌, ◌≢◌, refl, sym, ◌∙◌, ap, inl, inr, true, false, Option, none, some, List,
  [], ◌∷◌, length, get_elem?, set, get_elem?-set_self, get_elem?-set_ne, length-set, arith,
  Option-cases,
}
use valutron.Prelude.Int.{ℤ, pos, negsuc}
use valutron.Outcome.{done, or_dies}
use valutron.Word.{Word, is_smi, int_value, nil}
use valutron.Fields.{Objects, write_fields, to_int, place_of, prim_basic_at, prim_basic_at_put}

place_of-lt : (z : ℤ) (size i : ℕ) → place_of z size ≡ some i → i < size
unfolding place_of
place_of-lt (pos n) size i h = ground arith
place_of-lt (negsuc n) size i h = absurd (ground arith)

get_elem?-lt : (xs : List Word) (i : ℕ) → i < length xs → (x : Word) × (get_elem? xs i ≡ some x)
get_elem?-lt [] i h = absurd (omega (arith, h))
get_elem?-lt (x ∷ xs) zero h = (x, refl)
get_elem?-lt (x ∷ xs) (suc i) h = get_elem?-lt xs i (omega arith)

write_fields_self :
    (objects : Objects) (obj : Word) (oops : List Word)
    → write_fields objects obj oops obj ≡ some oops
unfolding write_fields
write_fields_self objects obj oops = ground arith

write_fields_other :
    (objects : Objects) (obj obj' : Word) (oops : List Word)
    → obj' ≢ obj
    → write_fields objects obj oops obj' ≡ objects obj'
unfolding write_fields
write_fields_other objects obj obj' oops apart = ground arith

-- `basicAt:` depends on the receiver's object only.
basic_at_frame :
    (objects after : Objects) (obj index : Word)
    → after obj ≡ objects obj
    → prim_basic_at after obj index ≡ prim_basic_at objects obj index
unfolding prim_basic_at
basic_at_frame objects after obj index same = rw same refl

-- The place of the field that an index names in an object.
abbrev pub place : Word → List Word → Option ℕ
place index oops = place_of (to_int (int_value index)) (length oops)

module _ (objects : Objects) (obj index : Word) (oops : List Word) (pointer : is_smi obj ≡ false)
    (number : is_smi index ≡ true) (here : objects obj ≡ some oops) where
  at_out : place index oops ≡ none → prim_basic_at objects obj index ≡ done nil
  unfolding prim_basic_at
  at_out out = ground arith

  at_in :
      (i : ℕ)
      → place index oops ≡ some i
      → prim_basic_at objects obj index ≡ or_dies (get_elem? oops i)
  unfolding prim_basic_at
  at_in i inside = ground arith

  put_in :
      (i : ℕ) (val : Word)
      → place index oops ≡ some i
      → prim_basic_at_put objects obj index val
        ≡ done (write_fields objects obj (set oops i val), obj)
  unfolding prim_basic_at_put
  put_in i val inside = ground arith

-- If the receiver is an object, the index a small integer, and the index, as an `int`, in bounds, then
-- `basicAt:put:` answers the receiver; behind it `basicAt:` answers the value at that index, at any index of
-- another field what it did before, and for another object what it did before.
pub prim_basic_at_put-prim_basic_at :
    (objects : Objects) (obj index val : Word) (oops : List Word) (i : ℕ)
    → is_smi obj ≡ false
    → is_smi index ≡ true
    → objects obj ≡ some oops
    → place index oops ≡ some i
    → (after : Objects) × (prim_basic_at_put objects obj index val ≡ done (after, obj))
      × (prim_basic_at after obj index ≡ done val)
      × ((other : Word)
          → is_smi other ≡ true
          → place other oops ≢ some i
          → prim_basic_at after obj other ≡ prim_basic_at objects obj other)
      × ((obj' other : Word)
          → obj' ≢ obj
          → prim_basic_at after obj' other ≡ prim_basic_at objects obj' other)
prim_basic_at_put-prim_basic_at objects obj index val oops i pointer number here inside =
    let after = write_fields objects obj (set oops i val) in
    let written : after obj ≡ some (set oops i val) =
      write_fields_self objects obj (set oops i val) in
    let same : length (set oops i val) ≡ length oops = length-set oops i val in
    let lt : i < length oops = place_of-lt (to_int (int_value index)) (length oops) i inside in
    (
      after,
      put_in objects obj index oops pointer number here i val inside,
      at_in after obj index (set oops i val) pointer number written i (rw same inside)
          ∙ ap or_dies (get_elem?-set_self oops i val lt),
      λ other number' else_where. elim (Option-cases (place other oops)) [
        | inl out ↦
            at_out after obj other (set oops i val) pointer number' written (rw same out)
            ∙ sym (at_out objects obj other oops pointer number' here out)
        | inr (j, inside') ↦
            at_in after obj other (set oops i val) pointer number' written j (rw same inside')
            ∙ ap or_dies (get_elem?-set_ne oops val (λ e. else_where (inside' ∙ ap some (sym e))))
            ∙ sym (at_in objects obj other oops pointer number' here j inside')
      ],
      λ obj' other apart.
          basic_at_frame objects after obj' other
            (write_fields_other objects obj obj' (set oops i val) apart),
    )
