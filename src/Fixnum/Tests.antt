-- ===== src/Fixnum/Tests.antt =====
-- The theorems on fixnums at concrete numbers.
use dummyscheme.Common.{some, ◌≢◌, ℕ, arith, ◌≡◌, ◌*◌, ◌≤◌}
use dummyscheme.Common.Int.{pos, negsuc, ◌-ℤ◌, ◌*ℤ◌}
use dummyscheme.Fixnum.{IsInt, abs, int_max, gcd, exact_round, ◌%ℤ◌, nummultooverflow}
use dummyscheme.Common.Divisor.{IsGcd}
use dummyscheme.Fixnum.Overflow.{nummultooverflow-checked, checked}
use dummyscheme.Fixnum.Gcd.{gcd-IsGcd}
use dummyscheme.Fixnum.Round.{exact_round-nearest}

max-IsInt : IsInt int_max
max-IsInt = omega arith

nummultooverflow-checked_example :
    nummultooverflow int_max (negsuc 1) ≡ checked (int_max *ℤ negsuc 1)
nummultooverflow-checked_example =
    nummultooverflow-checked int_max (negsuc 1) max-IsInt (omega arith)

two-ne-minus_one : pos 2 ≢ negsuc 0
two-ne-minus_one e = cc

two-nonzero : pos 2 ≢ pos 0
two-nonzero e = cc

-- -7 / 2 is a tie.
exact_round-nearest_example :
    (abs (negsuc 6 -ℤ exact_round (negsuc 6) (pos 2) *ℤ pos 2) * 2 ≤ 2)
    × (abs (negsuc 6 -ℤ exact_round (negsuc 6) (pos 2) *ℤ pos 2) * 2 ≡ 2
        → exact_round (negsuc 6) (pos 2) %ℤ pos 2 ≡ pos 0)
exact_round-nearest_example =
    exact_round-nearest (negsuc 6) (pos 2) two-nonzero (omega arith) (omega arith)
      λ e. two-ne-minus_one

gcd-IsGcd_example : (g : ℕ) × (gcd (negsuc 11) (pos 18) ≡ some g) × IsGcd g 12 18
gcd-IsGcd_example = gcd-IsGcd (negsuc 11) (pos 18) (omega arith) (omega arith)
