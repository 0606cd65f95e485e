-- ===== src/Bignum/Tests.antt =====
-- The theorems on bignums at concrete numbers.
use dummyscheme.Common.{some, ◌∷◌, refl, ℕ, List, arith, ◌≢◌, ◌≡◌, ◌++◌, []}
use dummyscheme.Common.Int.{pos, negsuc, ◌*ℤ◌, ◌+ℤ◌, ◌-ℤ◌}
use dummyscheme.Bignum.{plus, minus, NumBig, IsValid, magnitude, to_int, cmp}
use dummyscheme.Bignum.Decimal.{bigfromstr, tostr}
use dummyscheme.Bignum.Decimal.Print.{Prints, tostr-Prints, minus_sign}
use dummyscheme.Bignum.Mul.{big_zero, mul}
use dummyscheme.Bignum.Add.{add, sub}
use dummyscheme.Bignum.Mul.Rows.{to_int-mul}
use dummyscheme.Bignum.Add.Signed.{to_int-add, add_short}
use dummyscheme.Bignum.Decimal.Read.{bigfromstr-number, bigfromstr-tostr}
use dummyscheme.Bignum.Add.Aliased.{sub_self}
use dummyscheme.Bignum.Order.{compare_ℤ, cmp-eq-compare_ℤ}

-- 7 * 2 ^ 64 + 5
abbrev two_limbs : NumBig
two_limbs = record { sign = plus; limbs = 5 ∷ 7 ∷ [] }

-- -3
abbrev minus_three : NumBig
minus_three = record { sign = minus; limbs = 3 ∷ [] }

abbrev big_one : NumBig
big_one = record { sign = plus; limbs = 1 ∷ [] }

abbrev minus_large : NumBig
minus_large = record { sign = minus; limbs = 12345 ∷ [] }

two_limbs-IsValid : IsValid two_limbs
two_limbs-IsValid = record { words = omega arith; trimmed = omega arith }

minus_three-IsValid : IsValid minus_three
minus_three-IsValid = record { words = omega arith; trimmed = tt }

big_one-IsValid : IsValid big_one
big_one-IsValid = record { words = omega arith; trimmed = tt }

minus_large-IsValid : IsValid minus_large
minus_large-IsValid = record { words = omega arith; trimmed = tt }

big_zero-IsValid : IsValid big_zero
big_zero-IsValid = record { words = omega arith; trimmed = tt }

two_limbs-nonzero : magnitude two_limbs ≢ 0
two_limbs-nonzero = omega arith

to_int-mul_example : to_int (mul two_limbs minus_three) ≡ to_int two_limbs *ℤ to_int minus_three
to_int-mul_example = to_int-mul two_limbs minus_three two_limbs-IsValid minus_three-IsValid

to_int-add_example : to_int (add two_limbs minus_three) ≡ to_int two_limbs +ℤ to_int minus_three
to_int-add_example =
    to_int-add two_limbs minus_three two_limbs-IsValid minus_three-IsValid (λ s. omega arith)

-- 1 + (7 * 2 ^ 64 + 5) loses the second limb.
add_short_example :
    (magnitude (add big_one two_limbs) ≡ 6)
    × (to_int (add big_one two_limbs) ≢ to_int big_one +ℤ to_int two_limbs)
add_short_example =
    add_short big_one two_limbs big_one-IsValid two_limbs-IsValid refl (omega arith) (omega arith)

-- x - x is -2 x.
sub_self_example :
    (r : NumBig) × (sub (two_limbs ∷ []) 0 0 ≡ some (r, two_limbs ∷ []))
    × (to_int r ≡ pos 0 -ℤ to_int two_limbs -ℤ to_int two_limbs)
sub_self_example = sub_self (two_limbs ∷ []) 0 two_limbs refl two_limbs-IsValid

tostr-Prints_example : Prints two_limbs
tostr-Prints_example = tostr-Prints two_limbs two_limbs-IsValid two_limbs-nonzero

bigfromstr-number_example :
    (b : NumBig) × (bigfromstr (b'4' ∷ b'2' ∷ []) 10 minus ≡ some b)
    × IsValid b
    × (to_int b ≡ negsuc 41)
bigfromstr-number_example = bigfromstr-number (b'4' ∷ b'2' ∷ []) 10 42 minus (omega arith) refl

bigfromstr-tostr_example :
    (ds : List ℕ) × (b : NumBig) × (tostr minus_large ≡ minus_sign minus ++ ds)
    × (bigfromstr ds 10 minus ≡ some b)
    × IsValid b
    × (to_int b ≡ to_int minus_large)
bigfromstr-tostr_example = bigfromstr-tostr minus_large minus_large-IsValid (omega arith)

cmp-eq-compare_ℤ_example :
    cmp minus_three two_limbs ≡ compare_ℤ (to_int minus_three) (to_int two_limbs)
cmp-eq-compare_ℤ_example =
    cmp-eq-compare_ℤ minus_three two_limbs minus_three-IsValid two_limbs-IsValid
