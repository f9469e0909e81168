-- ===== src/Smi/Compare.antt =====
-- What the comparison primitives answer for small integers.
use valutron.Prelude.{
  ◌+◌, dec_lt, ◌≡◌, ◌≢◌, ◌↔◌, ◌⊎◌, inl, inr, refl, ap, sym, ◌∙◌, Bool, true, false, not, arith,
}
use valutron.Prelude.Int.{ℤ, pos_part, neg_part, ltb_ℤ, eqb_ℤ}
use valutron.Smi
use valutron.Word.{Word, is_smi, int_value, from_int}
use valutron.Word.RoundTrip.{IsSmi, from_int-int_value}
use valutron.Smi.{
  Booleans, prim_less_than, prim_greater_than, prim_less_or_equal, prim_greater_or_equal,
  prim_equal, prim_not_equal,
}

smi_tag : (w : Word) → IsSmi w → is_smi w ≡ true
unfolding is_smi
smi_tag w h = ground arith

eqb_ℤ-eq : (a b : ℤ) → eqb_ℤ a b ≡ true → a ≡ b
eqb_ℤ-eq a b h = ground arith

eqb_ℤ-refl : (a : ℤ) → eqb_ℤ a a ≡ true
eqb_ℤ-refl a = ground arith

int_value-injective : (a b : Word) → IsSmi a → IsSmi b → int_value a ≡ int_value b → a ≡ b
int_value-injective a b ha hb e =
    sym (from_int-int_value a ha).0 ∙ ap from_int e ∙ (from_int-int_value b hb).0

module _ (g : Booleans) (distinct : g.obj_true ≢ g.obj_false) (a b : Word) (ha : IsSmi a)
    (hb : IsSmi b) where
  equal-eqb : prim_equal g a b ≡ g.obj_true → eqb_ℤ (int_value a) (int_value b) ≡ true
  unfolding prim_equal
  equal-eqb e = ground (arith, smi_tag a, smi_tag b)

  eqb-equal : eqb_ℤ (int_value a) (int_value b) ≡ true → prim_equal g a b ≡ g.obj_true
  unfolding prim_equal
  eqb-equal e = ground (arith, smi_tag a, smi_tag b)

  -- If the two Boolean objects differ, `primEqual` answers true for two small integers exactly when
  -- they are the same word.
  prim_equal_iff : (prim_equal g a b ≡ g.obj_true) ↔ (a ≡ b)
  prim_equal_iff = (
    λ e. int_value-injective a b ha hb (eqb_ℤ-eq (int_value a) (int_value b) (equal-eqb e)),
    λ e. eqb-equal (rw e (eqb_ℤ-refl (int_value b))),
  )

-- The answers of the six comparisons, in the order `< = > <= ~= >=`.
abbrev pub Answers : Booleans → Word → Word → Bool → Bool → Bool → Type 0
Answers g a b lt eq gt =
    (prim_less_than g a b ≡ Smi.bool_object g lt)
    × (prim_equal g a b ≡ Smi.bool_object g eq)
    × (prim_greater_than g a b ≡ Smi.bool_object g gt)
    × (prim_less_or_equal g a b ≡ Smi.bool_object g (not gt))
    × (prim_not_equal g a b ≡ Smi.bool_object g (not eq))
    × (prim_greater_or_equal g a b ≡ Smi.bool_object g (not lt))

abbrev Ordered : ℤ → ℤ → Bool → Bool → Bool → Type 0
Ordered x y lt eq gt = (ltb_ℤ x y ≡ lt) × (eqb_ℤ x y ≡ eq) × (ltb_ℤ y x ≡ gt)

order_cases :
    (x y : ℤ)
    → Ordered x y true false false ⊎ (Ordered x y false true false ⊎ Ordered x y false false true)
order_cases x y = elim (dec_lt (pos_part x + neg_part y) (pos_part y + neg_part x)) [
  | yes p ↦ inl (ground arith)
  | no p ↦ elim (dec_lt (pos_part y + neg_part x) (pos_part x + neg_part y)) [
    | yes q ↦ inr (inr (ground arith))
    | no q ↦ inr (inl (ground arith))
  ]
]

Answers-Ordered :
    (g : Booleans) (a b : Word) {lt eq gt : Bool}
    → IsSmi a
    → IsSmi b
    → Ordered (int_value a) (int_value b) lt eq gt
    → Answers g a b lt eq gt
unfolding prim_less_than prim_equal prim_greater_than prim_less_or_equal prim_not_equal
    prim_greater_or_equal
Answers-Ordered g a b ha hb (lt, eq, gt) =
    rw (smi_tag a ha, smi_tag b hb, lt, eq, gt) (refl, refl, refl, refl, refl, refl)

-- For two small integers, either the first is less, or they are equal, or it is greater: of `<`, `=`
-- and `>` just that one answers the object true and the two others false, and each of `<=`, `~=` and
-- `>=` answers the opposite of `>`, `=` and `<`.
pub compare_trichotomy :
    (g : Booleans) (a b : Word)
    → IsSmi a
    → IsSmi b
    → Answers g a b true false false
      ⊎ (Answers g a b false true false ⊎ Answers g a b false false true)
compare_trichotomy g a b ha hb = elim (order_cases (int_value a) (int_value b)) [
  | inl o ↦ inl (Answers-Ordered g a b ha hb o)
  | inr (inl o) ↦ inr (inl (Answers-Ordered g a b ha hb o))
  | inr (inr o) ↦ inr (inr (Answers-Ordered g a b ha hb o))
]
