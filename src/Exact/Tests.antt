-- ===== src/Exact/Tests.antt =====
-- The theorems on exact integers at concrete values.
use dummyscheme.Common.{some, ◌∷◌, ◌≢◌, arith, ◌≡◌, []}
use dummyscheme.Common.Int.{pos, ◌*ℤ◌, ◌+ℤ◌, ◌-ℤ◌}
use dummyscheme.Exact.{fixnum, bignum, Num, nummultiply, numadd, numsubtract}
use dummyscheme.Bignum.{plus, minus, NumBig, IsValid, magnitude, to_int}
use dummyscheme.Fixnum.{IsInt, int_max, int_min}
use dummyscheme.Exact.Convert.{num_int, IsNum}
use dummyscheme.Exact.Arithmetic.{nummultiply_lem, numadd-fixnums, numsubtract-fixnums}

-- 2 ^ 64
abbrev two_pow_64 : NumBig
two_pow_64 = record { sign = plus; limbs = 0 ∷ 1 ∷ [] }

two_pow_64-IsValid : IsValid two_pow_64
two_pow_64-IsValid = record { words = omega arith; trimmed = omega arith }

abbrev minus_seven : NumBig
minus_seven = record { sign = minus; limbs = 7 ∷ [] }

minus_seven-IsValid : IsValid minus_seven
minus_seven-IsValid = record { words = omega arith; trimmed = tt }

seven-nonzero : magnitude minus_seven ≢ 0
seven-nonzero = omega arith

max-IsInt : IsInt int_max
max-IsInt = omega arith

min-IsInt : IsInt int_min
min-IsInt = omega arith

nummultiply_lem_example :
    (num_int (nummultiply (fixnum int_max) (bignum two_pow_64)) ≡ int_max *ℤ to_int two_pow_64)
    × IsNum (nummultiply (fixnum int_max) (bignum two_pow_64))
nummultiply_lem_example =
    nummultiply_lem (fixnum int_max) (bignum two_pow_64) max-IsInt two_pow_64-IsValid

-- The largest fixnum and 1 do not fit.
numadd-fixnums_example :
    (num_int (numadd (fixnum int_max) (fixnum (pos 1))) ≡ int_max +ℤ pos 1)
    × IsNum (numadd (fixnum int_max) (fixnum (pos 1)))
numadd-fixnums_example = numadd-fixnums int_max (pos 1) max-IsInt (omega arith)

numsubtract-fixnums_example :
    (r : Num) × (numsubtract int_min (pos 1) ≡ some r) × (num_int r ≡ int_min -ℤ pos 1) × IsNum r
numsubtract-fixnums_example = numsubtract-fixnums int_min (pos 1) min-IsInt (omega arith)
