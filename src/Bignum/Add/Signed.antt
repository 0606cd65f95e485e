-- ===== src/Bignum/Add/Signed.antt =====
-- `add` as addition of integers, and what it computes where `addabs` is called with the longer
-- number as its argument.
use dummyscheme.Common.{
  [], ◌≤◌, ◌≡◌, arith, length, ℕ, List, ◌<◌, ◌≢◌, ◌+◌, take, ◌∷◌, take-All, length-take, suc,
}
use dummyscheme.Common.Int.{◌+ℤ◌}
use dummyscheme.Bignum.{
  NumBig, IsValid, magnitude, to_int, same_sign, copy, IsWords, IsTrimmed, value,
}
use dummyscheme.Bignum.Add.{add}
use dummyscheme.Bignum.Add.Magnitude.{
  magnitude-addabs_of_le, addabs-IsValid, magnitude-subabs, subabs-IsValid, magnitude-addabs,
}
use dummyscheme.Bignum.Order.{cmpabs-eq-compare, weight_mono, weight-le-value}
use dummyscheme.Bignum.Value.{iszero_iff, length_pos, value-lt-weight}

-- When the two signs agree, `this` must have at least as many limbs as `other`.
abbrev pub Fits : NumBig → NumBig → Type 0
Fits a b = a.sign ≡ b.sign → length b.limbs ≤ length a.limbs

module _ (a b : NumBig) (v : IsValid a) (w : IsValid b) where
  -- On valid bignums `add` adds the integers they stand for, provided that the first has at least
  -- as many limbs as the second when the signs agree.
  pub to_int-add : Fits a b → to_int (add a b) ≡ to_int a +ℤ to_int b
  unfolding add ◌+ℤ◌ same_sign copy
  to_int-add h = ground (
    arith,
    iszero_iff a,
    iszero_iff b,
    cmpabs-eq-compare a b v w,
    magnitude-addabs_of_le a b v w,
    magnitude-subabs a b v w,
    magnitude-subabs b a w v,
  )

  -- `add` keeps bignums valid: words for limbs, and no zero limb on top.
  pub add-IsValid : IsValid (add a b)
  unfolding add copy
  add-IsValid =
      ground (arith, addabs-IsValid a b v w, subabs-IsValid a b v w, subabs-IsValid b a w v)

-- The limbs below an index are worth less than a trimmed number that goes beyond it.
value-take-lt :
    (n : ℕ) (xs : List ℕ)
    → IsWords xs
    → IsTrimmed xs
    → n < length xs
    → 0 < n
    → value (take n xs) < value xs
value-take-lt n [] w t h p = absurd (omega arith)
value-take-lt n (x ∷ []) w t h p = absurd (omega arith)
value-take-lt n (x ∷ y ∷ r) w t h p = omega (
  arith,
  value-lt-weight (take n (x ∷ y ∷ r)) (take-All _ n (x ∷ y ∷ r) w),
  length-take n (x ∷ y ∷ r),
  weight_mono (length (take n (x ∷ y ∷ r))) (suc (length r))
      (omega (arith, length-take n (x ∷ y ∷ r))),
  weight-le-value x y r t,
)

module _ (a b : NumBig) (v : IsValid a) (w : IsValid b) where
  -- For two valid bignums of one sign, the first not 0 and with fewer limbs, `add` drops the
  -- limbs of the second above those of the first, and the result is not the sum.
  pub add_short :
      a.sign ≡ b.sign
      → magnitude a ≢ 0
      → length a.limbs < length b.limbs
      → (magnitude (add a b) ≡ magnitude a + value (take (length a.limbs) b.limbs))
        × (to_int (add a b) ≢ to_int a +ℤ to_int b)
  unfolding add ◌+ℤ◌ same_sign copy
  add_short s p l =
      let lost =
        value-take-lt (length a.limbs) b.limbs w.words w.trimmed l (length_pos a.limbs v.trimmed) in
      (
        ground (arith, iszero_iff a, iszero_iff b, magnitude-addabs a b v w),
        ground (arith, iszero_iff a, iszero_iff b, magnitude-addabs a b v w),
      )
