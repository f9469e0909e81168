-- ===== src/Smi.antt =====
-- The small-integer primitives of cmd/vm/Primitive.cc, over tagged words. `nil` as the answer is a
-- primitive failure: the interpreter then sends the message.
pub mod Arith
pub mod Compare
use valutron.Prelude.{
  ℕ, ◌+◌, ◌-◌, ◌^◌, ◌≡◌, Bool, true, false, not, ◌||◌, Option, none, some, ltb, ◌==◌, if◌then◌else◌,
}
use valutron.Prelude.Int.{ℤ, pos, ◌+ℤ◌, ◌-ℤ◌, ◌*ℤ◌, ◌quot◌, ◌rem◌, ltb_ℤ, eqb_ℤ, fits_int64}
use valutron.Word.{Word, is_smi, int_value, from_int, nil}

-- `INT64_MAX / 2`, the bound that the primitives test their result against.
abbrev pub half_max : ℤ
half_max = pos (2 ^ 62 - 1)

-- The guard of every primitive: an operand is not a small integer.
abbrev pub not_smis : Word → Word → Bool
not_smis a b = not (is_smi a) || not (is_smi b)

-- The sum of two 61-bit integers cannot overflow `long`, and neither can their difference.
unfoldable pub prim_add : Word → Word → Word
unfolding is_smi
prim_add a b =
    let r = int_value a +ℤ int_value b in
    if not_smis a b then nil else if ltb_ℤ r half_max then from_int r else nil

unfoldable pub prim_subtract : Word → Word → Word
unfolding is_smi
prim_subtract a b =
    let r = int_value a -ℤ int_value b in
    if not_smis a b then nil else if ltb_ℤ r half_max then from_int r else nil

-- `none`: the product overflows `long`, which C++ leaves undefined.
unfoldable pub prim_multiply : Word → Word → Option Word
unfolding is_smi
prim_multiply a b =
    let r = int_value a *ℤ int_value b in
    if not_smis a b
    then some nil
    else if not (fits_int64 r)
    then none
    else if ltb_ℤ r half_max
    then some (from_int r)
    else some nil

unfoldable pub prim_quotient : Word → Word → Word
unfolding is_smi
prim_quotient a b =
    if not_smis a b
    then nil
    else if eqb_ℤ (int_value b) (pos 0)
    then nil
    else from_int (int_value a quot int_value b)

unfoldable pub prim_remainder : Word → Word → Word
unfolding is_smi
prim_remainder a b =
    if not_smis a b
    then nil
    else if eqb_ℤ (int_value b) (pos 0)
    then nil
    else from_int (int_value a rem int_value b)

-- The comparisons answer one of the two Boolean objects.
pub record Booleans : Type 0 where
  pub obj_true : Word
  pub obj_false : Word

module _ (g : Booleans) where
  abbrev pub bool_object : Bool → Word
  bool_object b = if b then g.obj_true else g.obj_false

  unfoldable pub prim_less_than : Word → Word → Word
  unfolding is_smi
  prim_less_than a b = if not_smis a b then nil else bool_object (ltb_ℤ (int_value a) (int_value b))

  unfoldable pub prim_greater_than : Word → Word → Word
  unfolding is_smi
  prim_greater_than a b =
      if not_smis a b then nil else bool_object (ltb_ℤ (int_value b) (int_value a))

  unfoldable pub prim_less_or_equal : Word → Word → Word
  unfolding is_smi
  prim_less_or_equal a b =
      if not_smis a b then nil else bool_object (not (ltb_ℤ (int_value b) (int_value a)))

  unfoldable pub prim_greater_or_equal : Word → Word → Word
  unfolding is_smi
  prim_greater_or_equal a b =
      if not_smis a b then nil else bool_object (not (ltb_ℤ (int_value a) (int_value b)))

  unfoldable pub prim_equal : Word → Word → Word
  unfolding is_smi
  prim_equal a b = if not_smis a b then nil else bool_object (eqb_ℤ (int_value a) (int_value b))

  unfoldable pub prim_not_equal : Word → Word → Word
  unfolding is_smi
  prim_not_equal a b =
      if not_smis a b then nil else bool_object (not (eqb_ℤ (int_value a) (int_value b)))
