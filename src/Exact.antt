-- ===== src/Exact.antt =====
-- scmmath.cpp: exact integers as values, a fixnum or a bignum: the conversions between the two
-- (`numbigfromi`, `bigvtinline`, `bigsetvt`), and the integer and bignum cases of `numadd`,
-- `numsubtract`, `nummultiply`, `quotient`, `modulo` and `remainder`. Ratios, reals and complex
-- numbers are not values here.
mod Tests
pub mod Convert
pub mod Arithmetic
pub mod Floor
pub mod Modulo
use dummyscheme.Common.{
  ◌>>◌, guard, ◌>>=◌, none, some, true, false, [], ◌∷◌, List, suc, ℕ, Option, Bool, if◌then◌else◌,
  leb, ◌^◌, ◌-◌, not, ◌&&◌,
}
use dummyscheme.Common.Int.{pos, negsuc, ℤ, ltb_ℤ, ◌+ℤ◌}
use dummyscheme.Bignum.{plus, minus, NumBig, normalize, with_sign, iszero, same_sign, copy}
use dummyscheme.Fixnum.{
  numaddtoverflow, nummultooverflow, numsubtoverflow, eqb_ℤ, differ, ◌%ℤ◌, int_min,
}
use dummyscheme.Bignum.Add.{add, limb, sub, subabs}
use dummyscheme.Bignum.Mul.{mul}
use dummyscheme.Bignum.Div.{numbigmod, numbigdiv}

-- `VT_NUM_INTEGER` and `VT_REF_NUM_BIG`
pub data Num : Type 0 where
  fixnum : ℤ → Num
  bignum : NumBig → Num

-- `val < 0` gives the sign; `-val` as an unsigned word is the absolute value. For the smallest
-- fixnum the negation is out of range and wraps, which gives the right word.
unfoldable pub numbigfromi : ℤ → NumBig
numbigfromi (pos n) = record { sign = plus; limbs = n ∷ [] }
numbigfromi (negsuc n) = record { sign = minus; limbs = suc n ∷ [] }

-- `big->len == 1 && big->data[0] <= (scm_uint)SCM_INT_MAX`
unfoldable pub one_small_limb : List ℕ → Bool
one_small_limb [] = false
one_small_limb (x ∷ []) = leb x (2 ^ 63 - 1)
one_small_limb (x ∷ y ∷ r) = false

-- The value that a bignum becomes, also what `bigvtinline` leaves in place.
unfoldable pub bigsetvt : NumBig → Num
bigsetvt big =
    let kept = normalize big in
    if one_small_limb kept.limbs
    then fixnum (with_sign kept.sign (limb kept.limbs))
    else bignum kept

-- `numsynctype` on a fixnum and a bignum makes both bignums.
unfoldable pub as_big : Num → NumBig
as_big (fixnum a) = numbigfromi a
as_big (bignum a) = a

-- The sum, which is a bignum where it does not fit.
unfoldable pub numadd : Num → Num → Num
numadd (fixnum a) (fixnum b) = elim (numaddtoverflow a b) [
  | some r ↦ fixnum r
  | none ↦ bigsetvt (add (numbigfromi a) (numbigfromi b))
]
numadd (fixnum a) (bignum b) = bigsetvt (add (numbigfromi a) b)
numadd (bignum a) (fixnum b) = bigsetvt (add a (numbigfromi b))
numadd (bignum a) (bignum b) = bigsetvt (add a b)

-- The difference of two distinct objects; the caller has made both bignums if one is.
unfoldable pub big_difference : NumBig → NumBig → Option Num
big_difference a b = do (r, store) ← sub (a ∷ b ∷ []) 0 1; some (bigsetvt r)

unfoldable pub numsubtract : ℤ → ℤ → Option Num
numsubtract a b = elim (numsubtoverflow a b) [
  | some r ↦ some (fixnum r)
  | none ↦ big_difference (numbigfromi a) (numbigfromi b)
]

unfoldable pub nummultiply : Num → Num → Num
nummultiply (fixnum a) (fixnum b) = elim (nummultooverflow a b) [
  | some r ↦ fixnum r
  | none ↦ bigsetvt (mul (numbigfromi a) (numbigfromi b))
]
nummultiply (fixnum a) (bignum b) = bigsetvt (mul (numbigfromi a) b)
nummultiply (bignum a) (fixnum b) = bigsetvt (mul a (numbigfromi b))
nummultiply (bignum a) (bignum b) = bigsetvt (mul a b)

-- `if (rem != 0 && (rem < 0) != (b < 0)) rem += b;`
unfoldable pub adjust_rem : ℤ → ℤ → ℤ
adjust_rem b rem =
    if not (eqb_ℤ rem (pos 0)) && differ (ltb_ℤ rem (pos 0)) (ltb_ℤ b (pos 0))
    then rem +ℤ b
    else rem

-- The fixnum case of `modulo`: `none` is the failed assertion, or `a % b` whose quotient does not
-- fit, on which the processor stops.
unfoldable pub fixnum_modulo : ℤ → ℤ → Option ℤ
fixnum_modulo a b = do
  guard (not (eqb_ℤ b (pos 0)))
  guard (not (eqb_ℤ a int_min && eqb_ℤ b (negsuc 0)))
  some (adjust_rem b (a %ℤ b))

-- `r = |b| - r`, and the sign of the divisor.
unfoldable pub floor_rem : NumBig → NumBig → NumBig → NumBig
floor_rem a b r =
    if not (iszero r) && not (same_sign a.sign b.sign)
    then record (subabs (normalize (record (copy b) { sign = plus })) r) { sign = b.sign }
    else record r { sign = b.sign }

-- `if (r->iszero()) r->sign = 1;`
unfoldable pub plus_zero : NumBig → NumBig
plus_zero r = if iszero r then record r { sign = plus } else r

unfoldable pub big_modulo : NumBig → NumBig → Option NumBig
big_modulo a b = do guard (not (iszero b)); r ← numbigmod a b; some (plus_zero (floor_rem a b r))

unfoldable pub modulo : Num → Num → Option Num
modulo (fixnum a) (fixnum b) = do r ← fixnum_modulo a b; some (fixnum r)
modulo (fixnum a) (bignum b) = do r ← big_modulo (numbigfromi a) b; some (bigsetvt r)
modulo (bignum a) (fixnum b) = do r ← big_modulo a (numbigfromi b); some (bigsetvt r)
modulo (bignum a) (bignum b) = do r ← big_modulo a b; some (bigsetvt r)

-- The bignum case of `quotient`.
unfoldable pub big_quotient : NumBig → NumBig → Option NumBig
big_quotient a b = do guard (not (iszero b)); q ← numbigdiv a b; some (plus_zero q)

-- The remainder takes the dividend's sign, unless it is 0.
unfoldable pub big_remainder : NumBig → NumBig → Option NumBig
big_remainder a b = do
  guard (not (iszero b))
  r ← numbigmod a b
  some (if iszero r then r else record r { sign = a.sign })
