-- ===== src/Fixnum/Overflow.antt =====
-- The overflow tests against the exact results.
use dummyscheme.Common.{
  zero, suc, none, some, ℕ, Option, ◌<◌, if◌then◌else◌, ltb, ◌≡◌, ◌/◌, arith, ◌*◌, ◌||◌, ◌^◌, ◌-◌,
}
use dummyscheme.Common.Int.{pos, negsuc, ℤ, ◌+ℤ◌, ◌*ℤ◌, ◌-ℤ◌, ltb_ℤ}
use dummyscheme.Fixnum.{numaddtoverflow, numsubtoverflow, nummultooverflow, IsInt, int_max, int_min}
use native.Mathlib.Nat.{div-lt_iff_lt-mul}

-- The exact result if it is in range.
abbrev pub checked : ℤ → Option ℤ
checked x = if ltb_ℤ int_max x || ltb_ℤ x int_min then none else some x

-- For fixnums in range, `numaddtoverflow` gives the exact sum if it is in range and reports an
-- overflow otherwise.
pub numaddtoverflow-checked : (a b : ℤ) → IsInt a → IsInt b → numaddtoverflow a b ≡ checked (a +ℤ b)
unfolding numaddtoverflow ◌+ℤ◌ ◌-ℤ◌
numaddtoverflow-checked a b ha hb = ground arith

-- For fixnums in range, `numsubtoverflow` gives the exact difference if it is in range and
-- reports an overflow otherwise.
pub numsubtoverflow-checked : (a b : ℤ) → IsInt a → IsInt b → numsubtoverflow a b ≡ checked (a -ℤ b)
unfolding numsubtoverflow ◌+ℤ◌ ◌-ℤ◌
numsubtoverflow-checked a b ha hb = ground arith

-- A quotient is below a number exactly if the dividend is below the product.
quotient_test : (m x k : ℕ) → 0 < k → ltb (m / k) x ≡ ltb m (x * k)
quotient_test m x k h = ground (arith, div-lt_iff_lt-mul {x = m} {y = x} h)

-- For fixnums in range, `nummultooverflow` gives the exact product if it is in range and reports
-- an overflow otherwise.
pub nummultooverflow-checked :
    (a b : ℤ) → IsInt a → IsInt b → nummultooverflow a b ≡ checked (a *ℤ b)
unfolding nummultooverflow ◌*ℤ◌
nummultooverflow-checked (pos zero) (pos b) ha hb = ground arith
nummultooverflow-checked (pos zero) (negsuc b) ha hb = ground arith
nummultooverflow-checked (pos (suc a)) (pos zero) ha hb = ground arith
nummultooverflow-checked (pos (suc a)) (pos (suc b)) ha hb =
    ground (arith, quotient_test (2 ^ 63 - 1) (suc a) (suc b))
nummultooverflow-checked (pos (suc a)) (negsuc b) ha hb =
    ground (arith, quotient_test (2 ^ 63) (suc b) (suc a))
nummultooverflow-checked (negsuc a) (pos zero) ha hb = ground arith
nummultooverflow-checked (negsuc a) (pos (suc b)) ha hb =
    ground (arith, quotient_test (2 ^ 63) (suc a) (suc b))
nummultooverflow-checked (negsuc a) (negsuc b) ha hb =
    ground (arith, quotient_test (2 ^ 63 - 1) (suc b) (suc a))
