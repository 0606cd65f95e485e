-- ===== src/Bignum/Order.antt =====
-- `cmpabs` and `cmp` against the order of the numbers that the objects stand for, and why equal
-- magnitudes have equal limbs.
use dummyscheme.Common.{
  ℕ, zero, suc, ◌+◌, ◌*◌, ◌<◌, ◌≤◌, ◌≡◌, refl, List, [], ◌∷◌, arith, compare, Ordering, length,
  word_mod, ◌⊎◌,
}
use dummyscheme.Bignum.{
  NumBig, value, weight, IsWords, IsTrimmed, IsValid, magnitude, cmp_limbs, cmpabs, cmp, same_sign,
  negate, of_sign, flip, to_int,
}
use dummyscheme.Bignum.Value.{weight_pos, value-lt-weight, iszero_iff}
use dummyscheme.Common.Int.{ℤ, pos_part, neg_part}

-- A number with a nonzero top limb needs all of its limbs.
pub weight-le-value :
    (x y : ℕ) (r : List ℕ) → IsTrimmed (x ∷ y ∷ r) → weight (suc (length r)) ≤ value (x ∷ y ∷ r)
weight-le-value x y [] h = omega arith
weight-le-value x y (z ∷ r) h = omega (arith, weight-le-value y z r h)

pub weight_mono : (m n : ℕ) → m ≤ n → weight m ≤ weight n
weight_mono zero n h = weight_pos n
weight_mono (suc m) zero h = absurd (omega arith)
weight_mono (suc m) (suc n) h = omega (arith, weight_mono m n (omega arith))

-- A trimmed number with fewer limbs is smaller.
pub value-lt-of-length-lt :
    (xs ys : List ℕ)
    → IsWords xs
    → IsTrimmed xs
    → IsTrimmed ys
    → length xs < length ys
    → value xs < value ys
value-lt-of-length-lt [] ys w h k l = absurd h
value-lt-of-length-lt (x ∷ xs) [] w h k l = absurd k
value-lt-of-length-lt (x ∷ xs) (y ∷ []) w h k l = absurd (omega arith)
value-lt-of-length-lt (x ∷ xs) (y ∷ z ∷ r) w h k l = omega (
  arith,
  value-lt-weight (x ∷ xs) w,
  weight_mono (suc (length xs)) (suc (length r)) (omega arith),
  weight-le-value y z r k,
)

cmp_step :
    (x y vx vy : ℕ)
    → x < word_mod
    → y < word_mod
    → (elim (compare vx vy) [
      | Ordering.eq ↦ compare x y
      | Ordering.lt ↦ Ordering.lt
      | Ordering.gt ↦ Ordering.gt
    ])
      ≡ compare (x + word_mod * vx) (y + word_mod * vy)
cmp_step x y vx vy p q = ground arith

-- Over arrays of one length the loop compares the values.
pub cmp_limbs-eq-compare :
    (xs ys : List ℕ)
    → IsWords xs
    → IsWords ys
    → length xs ≡ length ys
    → cmp_limbs xs ys ≡ compare (value xs) (value ys)
unfolding cmp_limbs
cmp_limbs-eq-compare [] [] v w e = refl
cmp_limbs-eq-compare [] (y ∷ ys) v w e = absurd (omega arith)
cmp_limbs-eq-compare (x ∷ xs) [] v w e = absurd (omega arith)
cmp_limbs-eq-compare (x ∷ xs) (y ∷ ys) v w e =
    rw (cmp_limbs-eq-compare xs ys v.1 w.1 (omega arith))
      (cmp_step x y (value xs) (value ys) v.0 w.0)

-- On valid bignums `cmpabs` is the comparison of the magnitudes.
pub cmpabs-eq-compare :
    (a b : NumBig) → IsValid a → IsValid b → cmpabs a b ≡ compare (magnitude a) (magnitude b)
unfolding cmpabs
cmpabs-eq-compare a b v w = ground (
  arith,
  cmp_limbs-eq-compare a.limbs b.limbs v.words w.words,
  value-lt-of-length-lt a.limbs b.limbs v.words v.trimmed w.trimmed,
  value-lt-of-length-lt b.limbs a.limbs w.words w.trimmed v.trimmed,
)

-- The three outcomes of `cmpabs`, with what each says of the magnitudes.
pub cmpabs-cases :
    (a b : NumBig)
    → IsValid a
    → IsValid b
    → ((cmpabs a b ≡ Ordering.lt) × (magnitude a < magnitude b))
      ⊎ (((cmpabs a b ≡ Ordering.eq) × (magnitude a ≡ magnitude b))
          ⊎ ((cmpabs a b ≡ Ordering.gt) × (magnitude b < magnitude a)))
cmpabs-cases a b v w = ground (arith, cmpabs-eq-compare a b v w)

-- The order of integers.
abbrev pub compare_ℤ : ℤ → ℤ → Ordering
compare_ℤ a b = compare (pos_part a + neg_part b) (pos_part b + neg_part a)

-- On valid bignums `cmp` is the comparison of the integers they stand for, also with zeros of
-- either sign.
pub cmp-eq-compare_ℤ :
    (a b : NumBig) → IsValid a → IsValid b → cmp a b ≡ compare_ℤ (to_int a) (to_int b)
unfolding cmp same_sign negate of_sign flip
cmp-eq-compare_ℤ a b v w = ground (arith, iszero_iff a, iszero_iff b, cmpabs-eq-compare a b v w)
