-- ===== src/Bignum/Add/Magnitude.antt =====
-- The loops of `addabs` and `subabs` compute the sum and the difference of the magnitudes.
use dummyscheme.Common.{
  ℕ, ◌+◌, ◌-◌, ◌*◌, ◌<◌, ◌≤◌, ◌≡◌, ap, List, [], ◌∷◌, arith, length, take, take-of-length-le,
  take-nil, word_mod, u64, suc, refl,
}
use dummyscheme.Bignum.{NumBig, value, IsWords, IsValid, magnitude, normalize, plus}
use dummyscheme.Bignum.Add.{
  limb, above, add_carry, add_limbs, addabs, sub_borrow, sub_limbs, subabs,
}
use dummyscheme.Bignum.Order.{value-lt-of-length-lt}
use dummyscheme.Bignum.Value.{length_pos, value-trim, normalize-IsValid}

add_step :
    (x y c : ℕ)
    → x < word_mod
    → y < word_mod
    → c ≤ 1
    → (u64 (x + y + c) + word_mod * add_carry x (u64 (x + y + c)) c ≡ x + y + c)
      × (add_carry x (u64 (x + y + c)) c ≤ 1)
unfolding add_carry
add_step x y c p q r = ground arith

-- The sum takes in as many limbs of the second number as the first has, and no more.
pub value-add_limbs :
    (xs ys : List ℕ) (c : ℕ)
    → IsWords xs
    → IsWords ys
    → c ≤ 1
    → value (add_limbs xs ys c) ≡ value xs + value (take (length xs) ys) + c
unfolding add_limbs
value-add_limbs [] ys c p q r = ground arith
value-add_limbs (x ∷ xs) [] c p q r =
    let s = add_step x 0 c p.0 (omega arith) r in
    omega (
      arith,
      s,
      ap value (take-nil (length xs)),
      value-add_limbs xs [] (add_carry x (u64 (x + 0 + c)) c) p.1 tt s.1,
    )
value-add_limbs (x ∷ xs) (y ∷ ys) c p q r =
    let s = add_step x y c p.0 q.0 r in
    omega (arith, s, value-add_limbs xs ys (add_carry x (u64 (x + y + c)) c) p.1 q.1 s.1)

add_limbs-IsWords :
    (xs ys : List ℕ) (c : ℕ) → IsWords xs → IsWords ys → c ≤ 1 → IsWords (add_limbs xs ys c)
unfolding add_limbs
add_limbs-IsWords [] ys c p q r = ground arith
add_limbs-IsWords (x ∷ xs) [] c p q r =
    let s = add_step x 0 c p.0 (omega arith) r in
    (omega arith, add_limbs-IsWords xs [] (add_carry x (u64 (x + 0 + c)) c) p.1 tt s.1)
add_limbs-IsWords (x ∷ xs) (y ∷ ys) c p q r =
    let s = add_step x y c p.0 q.0 r in
    (omega arith, add_limbs-IsWords xs ys (add_carry x (u64 (x + y + c)) c) p.1 q.1 s.1)

length-add_limbs : (xs ys : List ℕ) (c : ℕ) → length (add_limbs xs ys c) ≡ suc (length xs)
unfolding add_limbs
length-add_limbs [] ys c = refl
length-add_limbs (x ∷ xs) ys c =
    ap suc (length-add_limbs xs (above ys) (add_carry x (u64 (x + limb ys + c)) c))

module _ (a b : NumBig) (v : IsValid a) (w : IsValid b) where
  -- `addabs` adds the low limbs of `other`, as many as `this` has, to `this`.
  pub magnitude-addabs :
      magnitude (addabs a b) ≡ magnitude a + value (take (length a.limbs) b.limbs)
  unfolding addabs normalize
  magnitude-addabs = omega (
    arith,
    value-trim (add_limbs a.limbs b.limbs 0),
    value-add_limbs a.limbs b.limbs 0 v.words w.words (omega arith),
  )

  pub magnitude-addabs_of_le :
      length b.limbs ≤ length a.limbs → magnitude (addabs a b) ≡ magnitude a + magnitude b
  magnitude-addabs_of_le h =
      omega (arith, magnitude-addabs, ap value (take-of-length-le (length a.limbs) b.limbs h))

  pub addabs-IsValid : IsValid (addabs a b)
  unfolding addabs
  addabs-IsValid =
      normalize-IsValid plus (add_limbs a.limbs b.limbs 0)
        (add_limbs-IsWords a.limbs b.limbs 0 v.words w.words (omega arith))
        (omega (arith, length-add_limbs a.limbs b.limbs 0))

sub_step :
    (x y b : ℕ)
    → x < word_mod
    → y < word_mod
    → b ≤ 1
    → (u64 (x + 2 * word_mod - y - b) + y + b ≡ x + word_mod * sub_borrow x y b)
      × (sub_borrow x y b ≤ 1)
unfolding sub_borrow
sub_step x y b p q r = ground arith

-- Where the number taken away fits, the difference is exact.
pub value-sub_limbs :
    (xs ys : List ℕ) (b : ℕ)
    → IsWords xs
    → IsWords ys
    → b ≤ 1
    → length ys ≤ length xs
    → value ys + b ≤ value xs
    → value (sub_limbs xs ys b) + value ys + b ≡ value xs
unfolding sub_limbs
value-sub_limbs [] [] b p q r l h = omega arith
value-sub_limbs [] (y ∷ ys) b p q r l h = absurd (omega arith)
value-sub_limbs (x ∷ xs) [] b p q r l h =
    let s = sub_step x 0 b p.0 (omega arith) r in
    omega (
      arith,
      s,
      value-sub_limbs xs [] (sub_borrow x 0 b) p.1 tt s.1 (omega arith) (omega (arith, s)),
    )
value-sub_limbs (x ∷ xs) (y ∷ ys) b p q r l h =
    let s = sub_step x y b p.0 q.0 r in
    omega (
      arith,
      s,
      value-sub_limbs xs ys (sub_borrow x y b) p.1 q.1 s.1 (omega arith) (omega (arith, s)),
    )

sub_limbs-IsWords : (xs ys : List ℕ) (b : ℕ) → IsWords (sub_limbs xs ys b)
unfolding sub_limbs
sub_limbs-IsWords [] ys b = tt
sub_limbs-IsWords (x ∷ xs) ys b =
    (omega arith, sub_limbs-IsWords xs (above ys) (sub_borrow x (limb ys) b))

length-sub_limbs : (xs ys : List ℕ) (b : ℕ) → length (sub_limbs xs ys b) ≡ length xs
unfolding sub_limbs
length-sub_limbs [] ys b = refl
length-sub_limbs (x ∷ xs) ys b = ap suc (length-sub_limbs xs (above ys) (sub_borrow x (limb ys) b))

module _ (a b : NumBig) (v : IsValid a) (w : IsValid b) where
  length-le_of_magnitude-le : magnitude b ≤ magnitude a → length b.limbs ≤ length a.limbs
  length-le_of_magnitude-le h =
      ground (arith, value-lt-of-length-lt a.limbs b.limbs v.words v.trimmed w.trimmed)

  -- `subabs` takes the smaller magnitude from the larger.
  pub magnitude-subabs :
      magnitude b ≤ magnitude a → magnitude (subabs a b) + magnitude b ≡ magnitude a
  unfolding subabs normalize
  magnitude-subabs h = omega (
    arith,
    value-trim (sub_limbs a.limbs b.limbs 0),
    value-sub_limbs a.limbs b.limbs 0 v.words w.words (omega arith) (length-le_of_magnitude-le h)
        (omega arith),
  )

  pub subabs-IsValid : IsValid (subabs a b)
  unfolding subabs
  subabs-IsValid =
      normalize-IsValid plus (sub_limbs a.limbs b.limbs 0) (sub_limbs-IsWords a.limbs b.limbs 0)
        (omega (arith, length-sub_limbs a.limbs b.limbs 0, length_pos a.limbs v.trimmed))
