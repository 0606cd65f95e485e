-- ===== src/Exact/Modulo.antt =====
-- `modulo`, `quotient` and `remainder` of exact integers, also where one is a bignum.
use dummyscheme.Common.{
  some, if◌then◌else◌, ◌≢◌, ◌≡◌, ◌==◌, ◌<◌, ◌-◌, arith, refl, false, Bool-cases, inl, inr, ap, sym,
}
use dummyscheme.Common.Int.{◌*ℤ◌, ◌+ℤ◌}
use dummyscheme.Bignum.Div.Quotient.{numbigmod-run, numbigdiv-numbigmod}
use dummyscheme.Bignum.{
  plus, NumBig, Sign, same_sign, IsValid, magnitude, with_sign, to_int, normalize, copy, iszero,
}
use dummyscheme.Exact.{floor_rem, plus_zero, big_modulo, big_quotient, big_remainder}
use dummyscheme.Bignum.Value.{normalize-IsValid, length_pos, magnitude-normalize, iszero_iff}
use dummyscheme.Bignum.Add.{subabs}
use dummyscheme.Bignum.Add.Magnitude.{magnitude-subabs, subabs-IsValid}
use dummyscheme.Bignum.Div.Quotient.{numbigdiv-numbigmod}
use dummyscheme.Exact.Floor.{with_sign-zero, floor_result, IsFloorRem, floor_result-IsFloorRem}

-- The last step only turns -0 into 0.
pub to_int-plus_zero : (r : NumBig) → to_int (plus_zero r) ≡ to_int r
unfolding plus_zero
to_int-plus_zero r = elim (Bool-cases (iszero r)) [
  | inl gone ↦ rw gone (with_sign-zero r.sign (magnitude r) ((iszero_iff r).0 gone))
  | inr left ↦ rw left
]

pub plus_zero-IsValid : (r : NumBig) → IsValid r → IsValid (plus_zero r)
unfolding plus_zero
plus_zero-IsValid r v = elim (Bool-cases (iszero r)) [
  | inl gone ↦ rw gone (record { words = v.words; trimmed = v.trimmed })
  | inr left ↦ rw left v
]

module _ (a b r : NumBig) (v : IsValid a) (w : IsValid b) (vr : IsValid r)
    (bound : magnitude r < magnitude b) where
  divisor : NumBig
  divisor = normalize (record (copy b) { sign = plus })

  divisor-IsValid : IsValid divisor
  unfolding divisor copy
  divisor-IsValid = normalize-IsValid plus b.limbs w.words (length_pos b.limbs w.trimmed)

  left_over : magnitude (subabs divisor r) ≡ magnitude b - magnitude r
  unfolding divisor copy
  left_over = omega (
    arith,
    magnitude-normalize (record b { sign = plus }),
    magnitude-subabs divisor r divisor-IsValid vr,
    bound,
  )

  floor_rem_lem :
      (to_int (floor_rem a b r) ≡ floor_result a.sign b.sign (magnitude b) (magnitude r))
      × IsValid (floor_rem a b r)
  unfolding floor_rem floor_result divisor
  floor_rem_lem = elim (Bool-cases (iszero r)) [
    | inl gone ↦
        rw (gone, (iszero_iff r).0 gone) (refl, record { words = vr.words; trimmed = vr.trimmed })
    | inr left ↦
        let more : (magnitude r == 0) ≡ false = ground (arith, iszero_iff r) in
        elim (Bool-cases (same_sign a.sign b.sign)) [
          | inl same ↦
              rw (left, same, more) (refl, record { words = vr.words; trimmed = vr.trimmed })
          | inr mixed ↦
              rw (left, mixed, more)
                (
                  ap (with_sign b.sign) left_over,
                  record {
                    words = (subabs-IsValid divisor r divisor-IsValid vr).words;
                    trimmed = (subabs-IsValid divisor r divisor-IsValid vr).trimmed;
                  },
                )
        ]
  ]

-- Two bignums, the divisor not 0.
pub big_modulo_lem :
    (a b : NumBig)
    → IsValid a
    → IsValid b
    → magnitude b ≢ 0
    → (r : NumBig) × (big_modulo a b ≡ some r)
      × IsFloorRem (to_int a) (to_int b) (to_int r)
      × IsValid r
unfolding big_modulo
big_modulo_lem a b v w h =
    let running : iszero b ≡ false = ground (arith, iszero_iff b) in
    let (r, q, run, vr, whole, bound) = numbigmod-run a b v w h in
    let (same, valid) = floor_rem_lem a b r v w vr bound in
    (
      plus_zero (floor_rem a b r),
      rw (running, run),
      rw (to_int-plus_zero (floor_rem a b r), same)
          (floor_result-IsFloorRem a.sign b.sign (magnitude a) (magnitude b) q (magnitude r) whole
            bound),
      plus_zero-IsValid (floor_rem a b r) valid,
    )

signed_rem :
    (s : Sign) (r : NumBig)
    → r.sign ≡ s
    → (to_int (if iszero r then r else record r { sign = s }) ≡ to_int r)
      × (magnitude (if iszero r then r else record r { sign = s }) ≡ magnitude r)
signed_rem s r e = elim (Bool-cases (iszero r)) [
  | inl gone ↦ rw gone (refl, refl)
  | inr left ↦ rw left (ap (λ t. with_sign t (magnitude r)) (sym e), refl)
]

-- On valid bignums, the divisor not 0, `quotient` and `remainder` succeed, quotient times divisor
-- plus remainder is the dividend, and the remainder has the smaller magnitude.
big_quotient-big_remainder :
    (a b : NumBig)
    → IsValid a
    → IsValid b
    → magnitude b ≢ 0
    → (q : NumBig) × (r : NumBig) × (big_quotient a b ≡ some q)
      × (big_remainder a b ≡ some r)
      × (to_int q *ℤ to_int b +ℤ to_int r ≡ to_int a)
      × (magnitude r < magnitude b)
unfolding big_quotient big_remainder
big_quotient-big_remainder a b v w h =
    let running : iszero b ≡ false = ground (arith, iszero_iff b) in
    let (q, r, run_q, run_r, whole, bound, sign) = numbigdiv-numbigmod a b v w h in
    let (same, size) = signed_rem a.sign r sign in
    (
      plus_zero q,
      if iszero r then r else record r { sign = a.sign },
      rw (running, run_q),
      rw (running, run_r),
      rw (to_int-plus_zero q, same) whole,
      rw size bound,
    )
