-- ===== src/Bignum/Value.antt =====
-- What the limbs stand for: bounds of the value, and `trim` and `iszero` in terms of it.
use dummyscheme.Common.{
  ℕ, zero, suc, ◌+◌, ◌*◌, ◌<◌, ◌≤◌, ◌≡◌, refl, ◌↔◌, true, List, [], ◌∷◌, ◌++◌, arith, length,
  word_mod, ◌==◌, Bool-cases, ==-false→ne, inl, inr, replicate, ◌^◌, ap, ◌∙◌,
}
use dummyscheme.Bignum.{
  Sign, Sign, value, weight, IsWords, IsTrimmed, IsValid, drop_zero, trim, normalize, iszero_limbs,
  iszero, NumBig, magnitude, normal_sign, to_int, with_sign,
}
use dummyscheme.Common.Powers.{two-pow-add}

pub weight_pos : (n : ℕ) → 1 ≤ weight n
weight_pos zero = omega arith
weight_pos (suc n) = omega (arith, weight_pos n)

-- `n` limbs hold the numbers below `weight n`.
pub value-lt-weight : (xs : List ℕ) → IsWords xs → value xs < weight (length xs)
value-lt-weight [] h = omega arith
value-lt-weight (x ∷ xs) h = omega (arith, value-lt-weight xs h.1)

pub value-append : (xs ys : List ℕ) → value (xs ++ ys) ≡ value xs + weight (length xs) * value ys
value-append [] ys = omega arith
value-append (x ∷ xs) ys = omega (arith, value-append xs ys)

pub length_pos : (xs : List ℕ) → IsTrimmed xs → 1 ≤ length xs
length_pos [] h = absurd h
length_pos (x ∷ xs) h = omega arith

drop_zero-value : (x : ℕ) (xs : List ℕ) → value (drop_zero x xs) ≡ x + word_mod * value xs
unfolding drop_zero
drop_zero-value x [] = refl
drop_zero-value x (y ∷ []) = ground arith
drop_zero-value x (y ∷ z ∷ r) = refl

-- Dropping zero limbs from the top keeps the value.
pub value-trim : (xs : List ℕ) → value (trim xs) ≡ value xs
unfolding trim
value-trim [] = refl
value-trim (x ∷ xs) = omega (arith, drop_zero-value x (trim xs), value-trim xs)

drop_zero-IsWords : (x : ℕ) (xs : List ℕ) → x < word_mod → IsWords xs → IsWords (drop_zero x xs)
unfolding drop_zero
drop_zero-IsWords x [] p h = omega arith
drop_zero-IsWords x (y ∷ []) p h = ground arith
drop_zero-IsWords x (y ∷ z ∷ r) p h = (p, h)

pub trim-IsWords : (xs : List ℕ) → IsWords xs → IsWords (trim xs)
unfolding trim
trim-IsWords [] h = h
trim-IsWords (x ∷ xs) h = drop_zero-IsWords x (trim xs) h.0 (trim-IsWords xs h.1)

drop_zero-IsTrimmed : (x : ℕ) (xs : List ℕ) → IsTrimmed xs → IsTrimmed (drop_zero x xs)
unfolding drop_zero
drop_zero-IsTrimmed x [] h = absurd h
drop_zero-IsTrimmed x (y ∷ []) h = elim (Bool-cases (y == 0)) [
  | inl e ↦ rw e tt
  | inr e ↦ rw e (==-false→ne y 0 e)
]
drop_zero-IsTrimmed x (y ∷ z ∷ r) h = h

pub trim-IsTrimmed : (x : ℕ) (xs : List ℕ) → IsTrimmed (trim (x ∷ xs))
unfolding trim
trim-IsTrimmed x [] = tt
trim-IsTrimmed x (y ∷ xs) = drop_zero-IsTrimmed x (trim (y ∷ xs)) (trim-IsTrimmed y xs)

-- The test `iszero` holds exactly when the value is 0.
pub iszero_limbs_iff : (xs : List ℕ) → (iszero_limbs xs ≡ true) ↔ (value xs ≡ 0)
unfolding iszero_limbs
iszero_limbs_iff [] = ground arith
iszero_limbs_iff (x ∷ xs) = ground (arith, iszero_limbs_iff xs)

pub iszero_iff : (a : NumBig) → (iszero a ≡ true) ↔ (magnitude a ≡ 0)
unfolding iszero
iszero_iff a = iszero_limbs_iff a.limbs

pub normalize-IsValid :
    (s : Sign) (xs : List ℕ)
    → IsWords xs
    → 1 ≤ length xs
    → IsValid (normalize (record { sign = s; limbs = xs }))
unfolding normalize
normalize-IsValid s [] h l = absurd (omega arith)
normalize-IsValid s (x ∷ xs) h l = record {
  words = trim-IsWords (x ∷ xs) h;
  trimmed = trim-IsTrimmed x xs;
}

pub replicate-zero : (n : ℕ) → (value (replicate n 0) ≡ 0) × IsWords (replicate n 0)
replicate-zero zero = (refl, tt)
replicate-zero (suc n) =
    let rest = replicate-zero n in (omega (arith, rest.0), (omega arith, rest.1))

-- The weight of a limb is a power of 2.
pub weight-two-pow : (n : ℕ) → weight n ≡ 2 ^ (n * 64)
weight-two-pow zero = refl
weight-two-pow (suc n) =
    omega (arith, weight-two-pow n, two-pow-add 64 (n * 64), ap (λ (t : ℕ). 2 ^ t) (next n))
  where
    next : (n : ℕ) → suc n * 64 ≡ 64 + n * 64
    next n = omega arith

pub magnitude-normalize : (a : NumBig) → magnitude (normalize a) ≡ magnitude a
unfolding normalize
magnitude-normalize a = value-trim a.limbs

normal_sign_lem :
    (s : Sign) (xs : List ℕ) → with_sign (normal_sign s xs) (value xs) ≡ with_sign s (value xs)
unfolding normal_sign
normal_sign_lem s [] = refl
normal_sign_lem s (x ∷ []) = ground arith
normal_sign_lem s (x ∷ y ∷ r) = refl

-- Normalization keeps the integer, also at -0.
pub to_int-normalize : (a : NumBig) → to_int (normalize a) ≡ to_int a
unfolding normalize
to_int-normalize a =
    normal_sign_lem a.sign (trim a.limbs) ∙ ap (with_sign a.sign) (value-trim a.limbs)
