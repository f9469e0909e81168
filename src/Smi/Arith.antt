-- ===== src/Smi/Arith.antt =====
-- What the arithmetic primitives answer for small integers, in range and out of it.
use valutron.Prelude.{
  ℕ, zero, suc, ◌+◌, ◌-◌, ◌%◌, ◌^◌, ◌<◌, ◌≤◌, ◌≡◌, ◌≢◌, true, false, arith, none, some, ltb,
  if◌then◌else◌,
}
use valutron.Prelude.Int.{
  ℤ, pos, negsuc, pos_part, ◌+ℤ◌, ◌-ℤ◌, ◌*ℤ◌, ◌quot◌, ◌rem◌, -ℤ_parts, fits_int64, neg_ℕ, ltb_ℤ,
  eqb_ℤ,
}
use native.Mathlib.Nat.{div-add-mod, mod-le}
use valutron.Word.{Word, nil, is_smi, int_value, from_int}
use valutron.Word.RoundTrip.{IsSmi, FitsSmi, int_value-from_int, from_int-IsSmi, from_int-int_value}
use valutron.Smi.{half_max, prim_add, prim_subtract, prim_multiply, prim_quotient, prim_remainder}

IsSmi-fits : (w : Word) → IsSmi w → (is_smi w ≡ true) × FitsSmi (int_value w)
unfolding is_smi
IsSmi-fits w h = (ground arith, (from_int-int_value w h).1)

-- The bound that the code tests lies above every sum of two small integers.
add-below : (a b : ℤ) → FitsSmi a → FitsSmi b → pos_part (a +ℤ b) < 2 ^ 61
unfolding ◌+ℤ◌
add-below (pos a) (pos b) ha hb = ground arith
add-below (pos a) (negsuc b) ha hb = ground arith
add-below (negsuc a) (pos b) ha hb = ground arith
add-below (negsuc a) (negsuc b) ha hb = ground arith

sum-below : (a b : Word) → IsSmi a → IsSmi b → pos_part (int_value a +ℤ int_value b) < 2 ^ 61
sum-below a b ha hb = add-below (int_value a) (int_value b) (IsSmi-fits a ha).1 (IsSmi-fits b hb).1

fits-bounds : (z : ℤ) → FitsSmi z → (ltb_ℤ z half_max ≡ true) × (fits_int64 z ≡ true)
fits-bounds (pos n) h = ground arith
fits-bounds (negsuc n) h = ground arith

eqb_ℤ-ne : (a b : ℤ) → a ≢ b → eqb_ℤ a b ≡ false
eqb_ℤ-ne (pos a) (pos b) h = ground arith
eqb_ℤ-ne (pos a) (negsuc b) h = ground arith
eqb_ℤ-ne (negsuc a) (pos b) h = ground arith
eqb_ℤ-ne (negsuc a) (negsuc b) h = ground arith

neg-fits : (n : ℕ) → n ≤ 2 ^ 60 → FitsSmi (neg_ℕ n)
neg-fits zero h = omega arith
neg-fits (suc n) h = omega arith

rem-fits : (a b : ℤ) → FitsSmi a → FitsSmi (a rem b)
unfolding ◌rem◌
rem-fits (pos a) (pos b) h = omega (arith, mod-le a b)
rem-fits (pos a) (negsuc b) h = omega (arith, mod-le a (b + 1))
rem-fits (negsuc a) (pos b) h = neg-fits ((a + 1) % b) (omega (arith, mod-le (a + 1) b))
rem-fits (negsuc a) (negsuc b) h =
    neg-fits ((a + 1) % (b + 1)) (omega (arith, mod-le (a + 1) (b + 1)))

prim_add-from_int :
    (a b : Word) → IsSmi a → IsSmi b → prim_add a b ≡ from_int (int_value a +ℤ int_value b)
unfolding prim_add
prim_add-from_int a b ha hb =
    ground (arith, IsSmi-fits a, IsSmi-fits b, add-below (int_value a) (int_value b))

prim_subtract-from_int :
    (a b : Word) → IsSmi a → IsSmi b → prim_subtract a b ≡ from_int (int_value a -ℤ int_value b)
unfolding prim_subtract
prim_subtract-from_int a b ha hb =
    ground (arith, IsSmi-fits a, IsSmi-fits b, -ℤ_parts (int_value a) (int_value b))

from_int-ne_nil : (z : ℤ) → from_int z ≢ nil
from_int-ne_nil z e = omega (arith, from_int-IsSmi z)

-- Sixty-two bits do not survive: the top bit becomes the sign.
int_value-from_int_large :
    (n : ℕ) → 2 ^ 60 ≤ n → n < 2 ^ 61 → int_value (from_int (pos n)) ≡ pos n -ℤ pos (2 ^ 61)
unfolding int_value from_int ◌-ℤ◌
int_value-from_int_large n h k = ground arith

quot-rem : (a b : ℤ) → b ≢ pos 0 → (a quot b) *ℤ b +ℤ (a rem b) ≡ a
unfolding ◌quot◌ ◌rem◌ ◌*ℤ◌ ◌+ℤ◌
quot-rem (pos a) (pos b) h = ground (arith, div-add-mod a b)
quot-rem (pos a) (negsuc b) h = ground (arith, div-add-mod a (b + 1))
quot-rem (negsuc a) (pos b) h = ground (arith, div-add-mod (a + 1) b)
quot-rem (negsuc a) (negsuc b) h = ground (arith, div-add-mod (a + 1) (b + 1))

prim_multiply-small :
    (a b : Word)
    → IsSmi a
    → IsSmi b
    → FitsSmi (int_value a *ℤ int_value b)
    → prim_multiply a b ≡ some (from_int (int_value a *ℤ int_value b))
unfolding prim_multiply
prim_multiply-small a b ha hb h =
    let (low, in_64) = fits-bounds (int_value a *ℤ int_value b) h in
    ground (arith, IsSmi-fits a, IsSmi-fits b)

module _ (a b : Word) (ha : IsSmi a) (hb : IsSmi b) (nz : int_value b ≢ pos 0) where
  prim_quotient-from_int : prim_quotient a b ≡ from_int (int_value a quot int_value b)
  unfolding prim_quotient
  prim_quotient-from_int =
      ground (arith, IsSmi-fits a, IsSmi-fits b, eqb_ℤ-ne (int_value b) (pos 0))

  prim_remainder-from_int : prim_remainder a b ≡ from_int (int_value a rem int_value b)
  unfolding prim_remainder
  prim_remainder-from_int =
      ground (arith, IsSmi-fits a, IsSmi-fits b, eqb_ℤ-ne (int_value b) (pos 0))

-- If the sum of two small integers has 61 bits, `primAdd` does not fail and answers that sum.
pub prim_add_lem :
    (a b : Word)
    → IsSmi a
    → IsSmi b
    → FitsSmi (int_value a +ℤ int_value b)
    → (prim_add a b ≢ nil) × (int_value (prim_add a b) ≡ int_value a +ℤ int_value b)
prim_add_lem a b ha hb h =
    rw (prim_add-from_int a b ha hb)
      (from_int-ne_nil (int_value a +ℤ int_value b), int_value-from_int _ h)

-- If the difference of two small integers has 61 bits, `primSubtract` does not fail and answers it.
pub prim_subtract_lem :
    (a b : Word)
    → IsSmi a
    → IsSmi b
    → FitsSmi (int_value a -ℤ int_value b)
    → (prim_subtract a b ≢ nil) × (int_value (prim_subtract a b) ≡ int_value a -ℤ int_value b)
prim_subtract_lem a b ha hb h =
    rw (prim_subtract-from_int a b ha hb)
      (from_int-ne_nil (int_value a -ℤ int_value b), int_value-from_int _ h)

-- If the sum of two small integers is 2 ^ 60 or more, `primAdd` does not fail either: it answers the
-- sum less 2 ^ 61.
pub prim_add-wraps :
    (a b : Word) {n : ℕ}
    → IsSmi a
    → IsSmi b
    → int_value a +ℤ int_value b ≡ pos n
    → 2 ^ 60 ≤ n
    → (prim_add a b ≢ nil) × (int_value (prim_add a b) ≡ pos n -ℤ pos (2 ^ 61))
prim_add-wraps a b {n} ha hb e h =
    rw (prim_add-from_int a b ha hb, e)
      (from_int-ne_nil (pos n), int_value-from_int_large n h (rw e at (sum-below a b ha hb)))

-- If the product of two small integers has 61 bits, `primMultiply` does not fail and answers it.
pub prim_multiply_lem :
    (a b : Word)
    → IsSmi a
    → IsSmi b
    → FitsSmi (int_value a *ℤ int_value b)
    → (w : Word) × (prim_multiply a b ≡ some w)
      × (w ≢ nil)
      × (int_value w ≡ int_value a *ℤ int_value b)
unfolding prim_multiply
prim_multiply_lem a b ha hb h =
    let r : ℤ = int_value a *ℤ int_value b in
    (from_int r, prim_multiply-small a b ha hb h, from_int-ne_nil r, int_value-from_int r h)

-- If the product of two small integers is `INT64_MAX / 2` or more, `primMultiply` fails where it is
-- at most `INT64_MAX`; otherwise the C++ multiplication is undefined.
pub prim_multiply-large :
    (a b : Word) {n : ℕ}
    → IsSmi a
    → IsSmi b
    → int_value a *ℤ int_value b ≡ pos n
    → 2 ^ 62 - 1 ≤ n
    → prim_multiply a b ≡ (if ltb n (2 ^ 63) then some nil else none)
unfolding prim_multiply
prim_multiply-large a b ha hb e h = rw e (ground (arith, IsSmi-fits a, IsSmi-fits b))

-- If a divisor is not zero and the quotient has 61 bits, then `primQuotient` and `primRemainder` do
-- not fail, and the quotient times the divisor plus the remainder is the dividend.
pub prim_quotient-remainder :
    (a b : Word)
    → IsSmi a
    → IsSmi b
    → int_value b ≢ pos 0
    → FitsSmi (int_value a quot int_value b)
    → (prim_quotient a b ≢ nil)
      × (prim_remainder a b ≢ nil)
      × (int_value (prim_quotient a b) *ℤ int_value b +ℤ int_value (prim_remainder a b)
          ≡ int_value a)
prim_quotient-remainder a b ha hb nz h =
    rw
      (
        prim_quotient-from_int a b ha hb nz,
        prim_remainder-from_int a b ha hb nz,
        int_value-from_int _ h,
        int_value-from_int _ (rem-fits (int_value a) (int_value b) (IsSmi-fits a ha).1),
      )
      (
        from_int-ne_nil (int_value a quot int_value b),
        from_int-ne_nil (int_value a rem int_value b),
        quot-rem (int_value a) (int_value b) nz,
      )
