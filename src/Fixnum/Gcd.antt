-- ===== src/Fixnum/Gcd.antt =====
-- `gcd` and `lcm` of fixnums.
use dummyscheme.Common.{some, zero, suc, ℕ, ◌<◌, ◌≡◌, arith, ◌+◌, ◌%◌, ◌/◌, ◌==◌, false, ◌^◌}
use dummyscheme.Fixnum.{gcd_rounds, gcd, abs}
use dummyscheme.Common.Int.{ℤ}
use dummyscheme.Common.Divisor.{IsGcd, IsGcd-zero, IsGcd-step}
use native.Mathlib.Nat.{mod-lt, div-add-mod}

running : (b : ℕ) → (suc b == 0) ≡ false
running b = ground arith

gcd_rounds_lem : (fuel a b : ℕ) → b < fuel → (g : ℕ) × (gcd_rounds fuel a b ≡ some g) × IsGcd g a b
unfolding gcd_rounds
gcd_rounds_lem zero a b h = absurd (omega arith)
gcd_rounds_lem (suc fuel) a zero h = (a, ground arith, IsGcd-zero a)
gcd_rounds_lem (suc fuel) a (suc b) h =
    let small : a % suc b < suc b = mod-lt a (omega arith) in
    let (g, found, d) = gcd_rounds_lem fuel (suc b) (a % suc b) (omega (arith, small)) in
    (
      g,
      rw (running b) found,
      IsGcd-step g (a / suc b) a (suc b) (a % suc b) (omega (arith, div-add-mod a (suc b))) d,
    )

-- For two integers whose absolute values are fixnums, Euclid's loop ends with a greatest common
-- divisor of their absolute values.
pub gcd-IsGcd :
    (a b : ℤ)
    → abs a < 2 ^ 63
    → abs b < 2 ^ 63
    → (g : ℕ) × (gcd a b ≡ some g) × IsGcd g (abs a) (abs b)
unfolding gcd
gcd-IsGcd a b fits_a fits_b = gcd_rounds_lem (abs b + 1) (abs a) (abs b) (omega arith)
