-- ===== src/Bignum/Mul/Rows.antt =====
-- The loops of `mulabs`: a row adds one limb times a number into the result, the rows together
-- the product, and no carry is lost.
use native.Mathlib.Nat.{mul-le-mul_right, mul-zero, add-zero, zero-mul}
use dummyscheme.Common.{
  if◌then◌else◌, ℕ, arith, [], List, ◌≡◌, ◌<◌, length, word_mod, ◌+◌, ◌∷◌, ltb, u64, ◌≤◌, ◌*◌,
  Bool-cases, refl, ◌==◌, ◌-◌, inl, ==→eq, replicate, inr, suc, length-replicate, ap,
}
use dummyscheme.Bignum.Mul.{propagate, mul_row, row, mul_rows, mulabs, mul, mul_word}
use dummyscheme.Bignum.{
  value, IsWords, weight, NumBig, IsValid, magnitude, normalize, same_sign, to_int, plus,
}
use dummyscheme.Bignum.Add.{limb, above}
use dummyscheme.Bignum.Mul.Word.{mul_word_lem}
use dummyscheme.Bignum.Value.{
  value-lt-weight, replicate-zero, iszero_iff, value-trim, weight_pos, normalize-IsValid,
  length_pos,
}
use dummyscheme.Bignum.Order.{weight_mono}
use dummyscheme.Common.Int.{◌*ℤ◌}

-- `out` stands for `n`, in words, with as many limbs as `ds`.
record Holds (out ds : List ℕ) (n : ℕ) : Type 0 where
  is_value : value out ≡ n
  words : IsWords out
  same_length : length out ≡ length ds

propagate_lem :
    (ds : List ℕ) (c : ℕ)
    → IsWords ds
    → c < word_mod
    → value ds + c < weight (length ds)
    → Holds (propagate ds c) ds (value ds + c)
unfolding propagate
propagate_lem [] c w h l = record { is_value = omega arith; words = tt; same_length = refl }
propagate_lem (d ∷ ds) c w h l =
    let k : ℕ = if ltb (u64 (d + c)) d then 1 else 0 in
    let k_small : k < word_mod = ground arith in
    let step : u64 (d + c) + word_mod * k ≡ d + c = ground arith in
    let rest = propagate_lem ds k w.1 k_small (omega arith) in
    record {
      is_value = ground (arith, rest.is_value, step);
      words = ground (arith, rest.words);
      same_length = ground (arith, rest.same_length);
    }

-- A row adds `x` times the second number, and the carry into it.
mul_row_lem :
    (x : ℕ) (ys ds : List ℕ) (c : ℕ)
    → x < word_mod
    → IsWords ys
    → IsWords ds
    → c < word_mod
    → length ys ≤ length ds
    → value ds + x * value ys + c < weight (length ds)
    → Holds (mul_row x ys ds c) ds (value ds + x * value ys + c)
unfolding mul_row
mul_row_lem x [] ds c hx hy hd hc l fits =
    rw (mul-zero x, add-zero) (propagate_lem ds c hd hc (omega arith))
mul_row_lem x (y ∷ ys) [] c hx hy hd hc l fits = absurd (omega arith)
mul_row_lem x (y ∷ ys) (d ∷ ds) c hx hy hd hc l fits =
    let w = mul_word_lem x y d c hx hy.0 hd.0 hc in
    let rest =
      mul_row_lem x ys ds (mul_word x y d c).high hx hy.1 hd.1 w.2 (omega arith)
        (omega (arith, w)) in
    record {
      is_value = omega (arith, w, rest.is_value);
      words = (w.1, rest.words);
      same_length = omega (arith, rest.same_length);
    }

row_lem :
    (x : ℕ) (ys res : List ℕ)
    → x < word_mod
    → IsWords ys
    → IsWords res
    → length ys ≤ length res
    → value res + x * value ys < weight (length res)
    → Holds (row x ys res) res (value res + x * value ys)
unfolding row
row_lem x ys res hx hy hr l fits = elim (Bool-cases (x == 0)) [
  | inl e ↦ rw e (record {
    is_value = omega (arith, ap (λ (t : ℕ). t * value ys) (==→eq x 0 e), zero-mul (value ys));
    words = hr;
    same_length = refl;
  })
  | inr e ↦
      let whole = mul_row_lem x ys res 0 hx hy hr (omega arith) l (omega arith) in
      rw (e, ← add-zero (value res + x * value ys)) whole
]

value-limb : (xs : List ℕ) → value xs ≡ limb xs + word_mod * value (above xs)
value-limb [] = refl
value-limb (x ∷ xs) = refl

above-IsWords : (xs : List ℕ) → IsWords xs → IsWords (above xs)
above-IsWords [] h = h
above-IsWords (x ∷ xs) h = h.1

limb-lt : (xs : List ℕ) → IsWords xs → limb xs < word_mod
limb-lt [] h = omega arith
limb-lt (x ∷ xs) h = h.0

length-above : (xs : List ℕ) → length (above xs) ≡ length xs - 1
length-above [] = omega arith
length-above (x ∷ xs) = omega arith

-- The rows add the product of the two numbers into the result. Before the round for an index, the
-- limbs from it on are worth less than the weight of the second number's length.
mul_rows_lem :
    (xs ys res : List ℕ)
    → IsWords xs
    → IsWords ys
    → IsWords res
    → length res ≡ length xs + length ys
    → value res < weight (length ys)
    → (value (mul_rows xs ys res) ≡ value res + value xs * value ys) × IsWords (mul_rows xs ys res)
unfolding mul_rows
mul_rows_lem [] ys res hx hy hr l small = (rw (zero-mul, add-zero), hr)
mul_rows_lem (x ∷ xs) ys res hx hy hr l small =
    let bound : x * value ys ≤ (word_mod - 1) * value ys =
      mul-le-mul_right (value ys) (omega arith) in
    let step = row_lem x ys res hx.0 hy hr (omega arith) (
      omega (
        arith,
        bound,
        value-lt-weight ys hy,
        weight_mono (suc (length ys)) (length res) (omega arith),
      )) in
    let split = value-limb (row x ys res) in
    let rest =
      mul_rows_lem xs ys (above (row x ys res)) hx.1 hy (above-IsWords (row x ys res) step.words)
        (omega (arith, length-above (row x ys res), step.same_length))
        (omega (arith, bound, split, step.is_value, value-lt-weight ys hy)) in
    (omega (arith, split, step.is_value, rest.0), (limb-lt (row x ys res) step.words, rest.1))

mul_rows_pos : (xs ys res : List ℕ) → 1 ≤ length xs → 1 ≤ length (mul_rows xs ys res)
unfolding mul_rows
mul_rows_pos [] ys res h = absurd (omega arith)
mul_rows_pos (x ∷ xs) ys res h = omega arith

module _ (a b : NumBig) (v : IsValid a) (w : IsValid b) where
  rows :
      (value (mul_rows a.limbs b.limbs (replicate (length a.limbs + length b.limbs) 0))
        ≡ magnitude a * magnitude b)
      × IsWords (mul_rows a.limbs b.limbs (replicate (length a.limbs + length b.limbs) 0))
  rows =
      let zeros = replicate-zero (length a.limbs + length b.limbs) in
      let whole =
        mul_rows_lem a.limbs b.limbs (replicate (length a.limbs + length b.limbs) 0) v.words w.words
          zeros.1 (length-replicate (length a.limbs + length b.limbs) 0)
          (omega (arith, zeros.0, weight_pos (length b.limbs))) in
      (omega (arith, whole.0, zeros.0), whole.1)

  -- `mulabs` multiplies the magnitudes.
  pub magnitude-mulabs : magnitude (mulabs a b) ≡ magnitude a * magnitude b
  unfolding mulabs normalize
  magnitude-mulabs = ground (
    arith,
    iszero_iff a,
    iszero_iff b,
    rows,
    value-trim (mul_rows a.limbs b.limbs (replicate (length a.limbs + length b.limbs) 0)),
  )

  pub mulabs-IsValid : IsValid (mulabs a b)
  unfolding mulabs
  mulabs-IsValid = ground (
    arith,
    normalize-IsValid plus
        (mul_rows a.limbs b.limbs (replicate (length a.limbs + length b.limbs) 0)) rows.1
        (mul_rows_pos a.limbs b.limbs (replicate (length a.limbs + length b.limbs) 0)
          (length_pos a.limbs v.trimmed)),
  )

  pub magnitude-mul : magnitude (mul a b) ≡ magnitude a * magnitude b
  unfolding mul
  magnitude-mul = ground (arith, iszero_iff a, iszero_iff b, magnitude-mulabs)

  -- On valid bignums `mul` multiplies the integers they stand for.
  pub to_int-mul : to_int (mul a b) ≡ to_int a *ℤ to_int b
  unfolding mul ◌*ℤ◌ same_sign
  to_int-mul = ground (arith, iszero_iff a, iszero_iff b, magnitude-mulabs)

  -- `mul` keeps bignums valid: words for limbs, and no zero limb on top.
  pub mul-IsValid : IsValid (mul a b)
  unfolding mul
  mul-IsValid = ground (arith, mulabs-IsValid)
