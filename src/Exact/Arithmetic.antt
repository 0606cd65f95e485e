-- ===== src/Exact/Arithmetic.antt =====
-- Arithmetic on exact integers, where fixnums pass into bignums when they overflow.
use dummyscheme.Common.{[], ◌∷◌, none, some, ◌≡◌, ◌⊎◌, arith, inl, inr, refl, ◌∙◌, ap₂}
use dummyscheme.Common.Int.{pos, negsuc, ℤ, ◌+ℤ◌, ◌*ℤ◌, ◌-ℤ◌}
use dummyscheme.Exact.{
  fixnum, bignum, as_big, numadd, Num, numbigfromi, bigsetvt, nummultiply, numsubtract,
  big_difference,
}
use dummyscheme.Fixnum.Overflow.{
  checked, numaddtoverflow-checked, nummultooverflow-checked, numsubtoverflow-checked,
}
use dummyscheme.Fixnum.{IsInt}
use dummyscheme.Exact.Convert.{
  IsNum, num_int, numbigfromi-IsValid, numbigfromi-to_int, num_int-bigsetvt,
}
use dummyscheme.Bignum.{IsValid, to_int}
use dummyscheme.Bignum.Add.{add}
use dummyscheme.Bignum.Add.Signed.{add-IsValid, to_int-add, Fits}
use dummyscheme.Bignum.Mul.{mul}
use dummyscheme.Bignum.Mul.Rows.{mul-IsValid, to_int-mul}
use dummyscheme.Bignum.Add.Aliased.{negated, sub_lem}

pub as_big_lem : (a : Num) → IsNum a → IsValid (as_big a) × (to_int (as_big a) ≡ num_int a)
unfolding as_big
as_big_lem (fixnum a) v = (numbigfromi-IsValid a v, numbigfromi-to_int a)
as_big_lem (bignum a) v = (v, refl)

fixnums_Fits : (a b : ℤ) → Fits (numbigfromi a) (numbigfromi b)
unfolding numbigfromi
fixnums_Fits (pos a) (pos b) s = omega arith
fixnums_Fits (pos a) (negsuc b) s = omega arith
fixnums_Fits (negsuc a) (pos b) s = omega arith
fixnums_Fits (negsuc a) (negsuc b) s = omega arith

fixnums_Fits-negated : (a b : ℤ) → Fits (numbigfromi a) (negated (numbigfromi b))
unfolding numbigfromi negated
fixnums_Fits-negated (pos a) (pos b) s = omega arith
fixnums_Fits-negated (pos a) (negsuc b) s = omega arith
fixnums_Fits-negated (negsuc a) (pos b) s = omega arith
fixnums_Fits-negated (negsuc a) (negsuc b) s = omega arith

-- A result in range is the value itself.
checked-cases : (x : ℤ) → ((checked x ≡ some x) × IsInt x) ⊎ (checked x ≡ none)
checked-cases x = ground arith

-- The sum of two fixnums in range is exact, whether or not it overflows, and the result is a
-- fixnum in range or a valid bignum.
pub numadd-fixnums :
    (a b : ℤ)
    → IsInt a
    → IsInt b
    → (num_int (numadd (fixnum a) (fixnum b)) ≡ a +ℤ b) × IsNum (numadd (fixnum a) (fixnum b))
unfolding numadd
numadd-fixnums a b ha hb = elim (checked-cases (a +ℤ b)) [
  | inl (fits, range) ↦ rw (numadd, numaddtoverflow-checked a b ha hb, fits) (refl, range)
  | inr over ↦
      let sum = add (numbigfromi a) (numbigfromi b) in
      let va = numbigfromi-IsValid a ha in
      let vb = numbigfromi-IsValid b hb in
      let (same, valid) =
        num_int-bigsetvt sum (add-IsValid (numbigfromi a) (numbigfromi b) va vb) in
      rw (numadd, numaddtoverflow-checked a b ha hb, over)
        (
          same
              ∙ to_int-add (numbigfromi a) (numbigfromi b) va vb (fixnums_Fits a b)
              ∙ ap₂ (λ x y. x +ℤ y) (numbigfromi-to_int a) (numbigfromi-to_int b),
          valid,
        )
]

big_product :
    (a b : Num)
    → IsNum a
    → IsNum b
    → (num_int (bigsetvt (mul (as_big a) (as_big b))) ≡ num_int a *ℤ num_int b)
      × IsNum (bigsetvt (mul (as_big a) (as_big b)))
big_product a b v w =
    let (va, ea) = as_big_lem a v in
    let (vb, eb) = as_big_lem b w in
    let (same, valid) =
      num_int-bigsetvt (mul (as_big a) (as_big b)) (mul-IsValid (as_big a) (as_big b) va vb) in
    (same ∙ to_int-mul (as_big a) (as_big b) va vb ∙ ap₂ (λ x y. x *ℤ y) ea eb, valid)

-- The product of two exact integers, a fixnum in range or a valid bignum each, is the product of
-- the integers they stand for, and again a fixnum in range or a valid bignum.
pub nummultiply_lem :
    (a b : Num)
    → IsNum a
    → IsNum b
    → (num_int (nummultiply a b) ≡ num_int a *ℤ num_int b) × IsNum (nummultiply a b)
unfolding nummultiply as_big
nummultiply_lem (fixnum a) (fixnum b) v w = elim (checked-cases (a *ℤ b)) [
  | inl (fits, range) ↦ rw (nummultiply, nummultooverflow-checked a b v w, fits) (refl, range)
  | inr over ↦
      rw (nummultiply, nummultooverflow-checked a b v w, over)
        (big_product (fixnum a) (fixnum b) v w)
]
nummultiply_lem (fixnum a) (bignum b) v w = big_product (fixnum a) (bignum b) v w
nummultiply_lem (bignum a) (fixnum b) v w = big_product (bignum a) (fixnum b) v w
nummultiply_lem (bignum a) (bignum b) v w = big_product (bignum a) (bignum b) v w

-- The difference of two fixnums in range is exact, whether or not it overflows, and the result is
-- a fixnum in range or a valid bignum.
pub numsubtract-fixnums :
    (a b : ℤ)
    → IsInt a
    → IsInt b
    → (r : Num) × (numsubtract a b ≡ some r) × (num_int r ≡ a -ℤ b) × IsNum r
unfolding numsubtract big_difference
numsubtract-fixnums a b ha hb = elim (checked-cases (a -ℤ b)) [
  | inl (fits, range) ↦
      (fixnum (a -ℤ b), rw (numsubtract, numsubtoverflow-checked a b ha hb, fits), refl, range)
  | inr over ↦
      let va = numbigfromi-IsValid a ha in
      let vb = numbigfromi-IsValid b hb in
      let (d, run, exact, sound) =
        sub_lem (numbigfromi a ∷ numbigfromi b ∷ []) 0 1 (numbigfromi a) (numbigfromi b) refl refl
          (omega arith) va vb (fixnums_Fits-negated a b) in
      let (same, valid) = num_int-bigsetvt d sound in
      (
        bigsetvt d,
        rw (numsubtract, numsubtoverflow-checked a b ha hb, over, run),
        same ∙ exact ∙ ap₂ (λ x y. x -ℤ y) (numbigfromi-to_int a) (numbigfromi-to_int b),
        valid,
      )
]
