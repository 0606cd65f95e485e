-- ===== src/Bignum/Div/Quotient.antt =====
-- Division with remainder of two bignums, by magnitude and signed, and the greatest common divisor.
use mathlib.Core.Bool.{false≢true}
use dummyscheme.Common.{
  ℕ, arith, [], refl, zero, suc, ◌≡◌, ◌≢◌, none, some, false, ◌<◌, inl, inr, ◌∷◌, if◌then◌else◌,
  ◌*◌, ◌+◌, Bool-cases, sym, ◌∙◌,
}
use dummyscheme.Bignum.Div.{numbigdivabs, NumBigDivRes, numbigdiv, gcd_loop, numbigmod, div_long}
use dummyscheme.Bignum.{NumBig, IsValid, magnitude, copy, iszero, same_sign, plus, to_int, minus}
use dummyscheme.Bignum.Value.{iszero_iff}
use dummyscheme.Bignum.Div.Loop.{Divides, div_long-Divides}
use dummyscheme.Bignum.Order.{cmpabs-cases}
use dummyscheme.Bignum.Mul.{big_zero}
use dummyscheme.Common.Int.{◌*ℤ◌, ◌+ℤ◌}
use dummyscheme.Common.Divisor.{IsGcd, IsGcd-zero, IsGcd-step}

-- Division by a valid bignum that is 0 is an error.
numbigdivabs-eq-none : (a b : NumBig) → IsValid b → magnitude b ≡ 0 → numbigdivabs a b ≡ none
unfolding numbigdivabs
numbigdivabs-eq-none a b w h = rw ((iszero_iff b).1 h)

module _ (a b : NumBig) (v : IsValid a) (w : IsValid b) (nonzero : magnitude b ≢ 0) where
  proceeds : iszero b ≡ false
  proceeds = ground (arith, iszero_iff b)

  -- Any other divisor gives the quotient and the remainder of the magnitudes.
  pub numbigdivabs-Divides : (res : NumBigDivRes) × (numbigdivabs a b ≡ some res) × Divides a b res
  unfolding numbigdivabs copy
  numbigdivabs-Divides = elim (cmpabs-cases a b v w) [
    | inl (less, small) ↦ (
      record { quot = big_zero; rem = copy a },
      rw (proceeds, less),
      record {
        quot_valid = record { words = omega arith; trimmed = tt };
        rem_valid = record { words = v.words; trimmed = v.trimmed };
        whole = omega arith;
        bound = small;
      },
    )
    | inr (inl (equal, same)) ↦ (
      record { quot = record { sign = plus; limbs = 1 ∷ [] }; rem = big_zero },
      rw (proceeds, equal),
      record {
        quot_valid = record { words = omega arith; trimmed = tt };
        rem_valid = record { words = omega arith; trimmed = tt };
        whole = omega (arith, same);
        bound = omega (arith, nonzero);
      },
    )
    | inr (inr (greater, large)) ↦
        (div_long a b, rw (proceeds, greater), div_long-Divides a b v w nonzero large)
  ]

  pub numbigmod-run :
      (r : NumBig) × (q : ℕ) × (numbigmod a b ≡ some r)
      × IsValid r
      × (q * magnitude b + magnitude r ≡ magnitude a)
      × (magnitude r < magnitude b)
  unfolding numbigmod
  numbigmod-run =
      let (res, run, d) = numbigdivabs-Divides in
      (
        record (res.rem) { sign = a.sign },
        magnitude res.quot,
        rw run,
        record { words = d.rem_valid.words; trimmed = d.rem_valid.trimmed },
        d.whole,
        d.bound,
      )

  pub numbigdiv-numbigmod :
      (q : NumBig) × (r : NumBig) × (numbigdiv a b ≡ some q)
      × (numbigmod a b ≡ some r)
      × (to_int q *ℤ to_int b +ℤ to_int r ≡ to_int a)
      × (magnitude r < magnitude b)
      × (r.sign ≡ a.sign)
  unfolding numbigdiv numbigmod same_sign ◌*ℤ◌ ◌+ℤ◌
  numbigdiv-numbigmod =
      let (res, run, d) = numbigdivabs-Divides in
      (
        record (res.quot) { sign = if same_sign a.sign b.sign then plus else minus },
        record (res.rem) { sign = a.sign },
        rw run,
        rw run,
        ground (arith, d.whole),
        d.bound,
        refl,
      )

-- Euclid's loop on valid bignums ends within any number of rounds that exceeds the second
-- magnitude, and what it returns is a greatest common divisor of the two magnitudes.
gcd_loop_lem :
    (fuel : ℕ) (a b : NumBig)
    → IsValid a
    → IsValid b
    → magnitude b < fuel
    → (g : NumBig) × (gcd_loop fuel a b ≡ some g) × IsGcd (magnitude g) (magnitude a) (magnitude b)
unfolding gcd_loop
gcd_loop_lem zero a b v w h = absurd (omega arith)
gcd_loop_lem (suc fuel) a b v w h = elim (Bool-cases (iszero b)) [
  | inl done ↦
      let none_left = (iszero_iff b).0 done in (a, rw done, rw none_left (IsGcd-zero (magnitude a)))
  | inr more ↦
      let (r, q, run, valid, whole, small) =
        numbigmod-run a b v w (λ e. absurd (false≢true (sym more ∙ (iszero_iff b).1 e))) in
      let (g, found, d) = gcd_loop_lem fuel b r w valid (omega arith) in
      (
        g,
        rw (more, run) found,
        IsGcd-step (magnitude g) q (magnitude a) (magnitude b) (magnitude r) whole d,
      )
]
