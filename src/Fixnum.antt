-- ===== src/Fixnum.antt =====
-- scmmath.cpp: arithmetic on fixnums (`scm_int`, 64-bit signed integers): the overflow tests of
-- addition, subtraction and multiplication, `gcd`, and `exact_round`. A fixnum is an integer in
-- range; C++ division truncates.
mod Tests
pub mod Overflow
pub mod Gcd
pub mod Round
use dummyscheme.Common.{
  ◌>>=◌, ◌>>◌, guard, none, some, zero, suc, true, false, ℕ, ◌^◌, Bool, ◌/◌, ◌%◌, Option, ◌-◌,
  if◌then◌else◌, ◌+◌, ◌&&◌, not, ◌==◌, ltb,
}
use dummyscheme.Common.Int.{
  ℤ, pos, negsuc, ◌≤ℤ◌, pos_part, sub_ℕ, ltb_ℤ, neg_part, ◌-ℤ◌, ◌+ℤ◌, ◌*ℤ◌,
}

-- `SCM_INT_MAX` and `SCM_INT_MIN`
abbrev pub int_max : ℤ
int_max = pos (2 ^ 63 - 1)

abbrev pub int_min : ℤ
int_min = negsuc (2 ^ 63 - 1)

abbrev pub IsInt : ℤ → Type 0
IsInt x = (int_min ≤ℤ x) × (x ≤ℤ int_max)

-- The absolute value.
abbrev pub abs : ℤ → ℕ
abs (pos n) = n
abs (negsuc n) = suc n

abbrev pub eqb_ℤ : ℤ → ℤ → Bool
eqb_ℤ a b = pos_part a + neg_part b == pos_part b + neg_part a

infixl 70 ◌/ℤ◌ ◌%ℤ◌
-- `a / b` and `a % b` for `b != 0`.
abbrev pub ◌/ℤ◌ : ℤ → ℤ → ℤ
pos a /ℤ pos b = pos (a / b)
pos a /ℤ negsuc b = sub_ℕ 0 (a / suc b)
negsuc a /ℤ pos b = sub_ℕ 0 (suc a / b)
negsuc a /ℤ negsuc b = pos (suc a / suc b)

abbrev pub ◌%ℤ◌ : ℤ → ℤ → ℤ
pos a %ℤ b = pos (a % abs b)
negsuc a %ℤ b = sub_ℕ 0 (suc a % abs b)

-- `none` is the answer `true`: the result does not fit.
unfoldable pub numaddtoverflow : ℤ → ℤ → Option ℤ
numaddtoverflow a b =
    if ltb_ℤ (pos 0) b && ltb_ℤ (int_max -ℤ b) a
    then none
    else if ltb_ℤ b (pos 0) && ltb_ℤ a (int_min -ℤ b)
    then none
    else some (a +ℤ b)

unfoldable pub numsubtoverflow : ℤ → ℤ → Option ℤ
numsubtoverflow a b =
    if ltb_ℤ (pos 0) b && ltb_ℤ a (int_min +ℤ b)
    then none
    else if ltb_ℤ b (pos 0) && ltb_ℤ (int_max +ℤ b) a
    then none
    else some (a -ℤ b)

unfoldable pub nummultooverflow : ℤ → ℤ → Option ℤ
nummultooverflow a b =
    if (if ltb_ℤ (pos 0) a
      then (if ltb_ℤ (pos 0) b then ltb_ℤ (int_max /ℤ b) a else ltb_ℤ b (int_min /ℤ a))
      else if ltb_ℤ (pos 0) b
      then ltb_ℤ a (int_min /ℤ b)
      else not (eqb_ℤ a (pos 0)) && ltb_ℤ b (int_max /ℤ a))
    then none
    else some (a *ℤ b)

-- The rounds of Euclid's loop, `while (b != 0)`, with fuel.
unfoldable pub gcd_rounds : ℕ → ℕ → ℕ → Option ℕ
gcd_rounds zero a b = none
gcd_rounds (suc fuel) a b = let rest = gcd_rounds fuel b (a % b) in if b == 0 then some a else rest

-- The second number grows smaller in each round. `-2 ^ 63`, whose absolute value is out of range,
-- is not an argument.
unfoldable pub gcd : ℤ → ℤ → Option ℕ
gcd a b = gcd_rounds (abs b + 1) (abs a) (abs b)

-- `a * b` must be in range.
unfoldable pub lcm : ℤ → ℤ → Option ℕ
lcm a b = do g ← gcd a b; guard (not (g == 0)); some (abs (a *ℤ b /ℤ pos g))

-- `(nu < 0) != (de < 0)` on the two answers.
unfoldable pub differ : Bool → Bool → Bool
differ true b = not b
differ false b = b

-- `neg ? q - 1 : q + 1`
unfoldable pub away : Bool → ℤ → ℤ
away neg q = if neg then q -ℤ pos 1 else q +ℤ pos 1

-- What follows the two divisions, on the quotient and the remainder.
unfoldable pub round_from : ℤ → ℤ → Bool → ℕ → ℤ
round_from q r neg ad =
    let ar = abs r in
    if eqb_ℤ r (pos 0)
    then q
    else if ltb ad (ar + ar)
    then away neg q
    else if ltb (ar + ar) ad
    then q
    else if not (eqb_ℤ (q %ℤ pos 2) (pos 0))
    then away neg q
    else q

-- The quotient of a ratio's numerator and denominator, rounded, where `ar + ar` and `-de` are in
-- range, as they are for a denominator of at most 2 ^ 62.
unfoldable pub exact_round : ℤ → ℤ → ℤ
exact_round nu de =
    round_from (nu /ℤ de) (nu %ℤ de) (differ (ltb_ℤ nu (pos 0)) (ltb_ℤ de (pos 0))) (abs de)
