-- ===== src/Bignum/Div.antt =====
-- `SCMMath::numbigdivabs` (scmmath.cpp): long division in base 2 of two magnitudes, and what is
-- built on it, `SCM::numbigdiv` and `numbigmod` (vm.cpp) and `SCMMath::gcd` of two bignums.
pub mod Loop
pub mod Quotient
use dummyscheme.Common.{
  ℕ, zero, suc, ◌+◌, ◌-◌, ◌*◌, ◌/◌, Option, none, some, [], ◌∷◌, Ordering, replicate, not, guard,
  ◌>>=◌, ◌>>◌, if◌then◌else◌,
}
use dummyscheme.Bignum.Add.{subabs}
use dummyscheme.Bignum.Mul.{big_zero}
use dummyscheme.Bignum.Shift.{bitlength, numbigshlabs, numbigshr1absinline, numbigsetbitinline}
use dummyscheme.Bignum.{Sign, plus, minus, NumBig, same_sign, normalize, iszero, cmpabs, copy}

-- `NumBigDivRes`
pub record NumBigDivRes : Type 0 where
  pub quot : NumBig
  pub rem : NumBig

-- The test in the loop for bit `i`: take `shifted_b` away if it fits, and set the bit.
unfoldable pub div_step : ℕ → NumBig → NumBigDivRes → NumBigDivRes
div_step i shifted_b s = elim (cmpabs s.rem shifted_b) [
  | Ordering.lt ↦ s
  | Ordering.eq ↦ record { quot = numbigsetbitinline s.quot i; rem = subabs s.rem shifted_b }
  | Ordering.gt ↦ record { quot = numbigsetbitinline s.quot i; rem = subabs s.rem shifted_b }
]

-- `for (int i = shift; i >= 0; --i)`, by the number of rounds left: `i + 1` of them at bit `i`.
unfoldable pub div_loop : ℕ → NumBig → NumBigDivRes → NumBigDivRes
div_loop zero shifted_b s = s
div_loop (suc i) shifted_b s = div_loop i (numbigshr1absinline shifted_b) (div_step i shifted_b s)

-- The part for `cmp > 0`.
unfoldable pub div_long : NumBig → NumBig → NumBigDivRes
div_long a b =
    let shift = bitlength a - bitlength b in
    let res = div_loop (suc shift) (numbigshlabs b shift) (record {
      quot = record { sign = plus; limbs = replicate (shift / 64 + 1) 0 };
      rem = copy a;
    }) in
    record { quot = normalize res.quot; rem = normalize res.rem }

-- `none` is the failed assertion on a zero divisor.
unfoldable pub numbigdivabs : NumBig → NumBig → Option NumBigDivRes
numbigdivabs a b = do
  guard (not (iszero b))
  elim (cmpabs a b) [
    | Ordering.lt ↦ some (record { quot = big_zero; rem = copy a })
    | Ordering.eq ↦ some (record { quot = record { sign = plus; limbs = 1 ∷ [] }; rem = big_zero })
    | Ordering.gt ↦ some (div_long a b)
  ]

-- Truncated division: the quotient's sign is the product of the signs.
unfoldable pub numbigdiv : NumBig → NumBig → Option NumBig
numbigdiv a b = do
  res ← numbigdivabs a b
  some (record (res.quot) { sign = if same_sign a.sign b.sign then plus else minus })

-- The remainder has the dividend's sign.
unfoldable pub numbigmod : NumBig → NumBig → Option NumBig
numbigmod a b = do res ← numbigdivabs a b; some (record (res.rem) { sign = a.sign })

-- `while (!b->iszero())`, with fuel; the division does not fail there.
unfoldable pub gcd_loop : ℕ → NumBig → NumBig → Option NumBig
gcd_loop zero a b = none
gcd_loop (suc fuel) a b =
    let rest = (do r ← numbigmod a b; gcd_loop fuel b r) in if iszero b then some a else rest
