-- ===== src/Bignum/Mul/Word.antt =====
-- One limb times one limb: the 128-bit product with the carries is exact.
use native.Mathlib.Nat.{mul-le-mul, mod-eq_of_lt}
use dummyscheme.Common.{
  ℕ, arith, half_mod, ◌+◌, ◌<◌, word_mod, ◌-◌, ◌≤◌, ◌*◌, ◌≡◌, u64, ◌%◌, ◌/◌, ap₂,
}
use dummyscheme.Bignum.Mul.{Wide, add_low, join_products, mul_word}
use dummyscheme.Common.Bits.{bit_and_mask}

abbrev pub wide_value : Wide → ℕ
wide_value w = w.low + word_mod * w.high

add_low_lem :
    (x : ℕ) (w : Wide)
    → x < word_mod
    → w.low < word_mod
    → wide_value w + x < word_mod * word_mod
    → (wide_value (add_low x w) ≡ wide_value w + x) × ((add_low x w).low < word_mod)
unfolding add_low
add_low_lem x w p q h = ground arith

-- The largest product of two 32-bit halves.
abbrev half_square : ℕ
half_square = (half_mod - 1) * (half_mod - 1)

join_products_lem :
    (p0 p1 p2 p3 : ℕ)
    → p0 ≤ half_square
    → p1 ≤ half_square
    → p2 ≤ half_square
    → p3 ≤ half_square
    → (wide_value (join_products p0 p1 p2 p3) ≡ p0 + half_mod * (p1 + p2) + word_mod * p3)
      × ((join_products p0 p1 p2 p3).low < word_mod)
unfolding join_products
join_products_lem p0 p1 p2 p3 h0 h1 h2 h3 = ground arith

split_product :
    (a b c d : ℕ)
    → (a + half_mod * b) * (c + half_mod * d)
      ≡ a * c + half_mod * (a * d + b * c) + word_mod * (b * d)
split_product a b c d = omega arith

half_product : (a b : ℕ) → a < half_mod → b < half_mod → a * b ≤ half_square
half_product a b p q =
    mul-le-mul {n₂ = half_mod - 1} {m₂ = half_mod - 1} (omega arith) (omega arith)

-- The number whose halves are `a` (low) and `b` (high).
abbrev halves : ℕ → ℕ → ℕ
halves a b = a + half_mod * b

abbrev halves_product : ℕ → ℕ → ℕ → ℕ → Wide
halves_product a b c e = join_products (u64 (a * c)) (u64 (a * e)) (u64 (b * c)) (u64 (b * e))

module _ (a b c e : ℕ) (ha : a < half_mod) (hb : b < half_mod) (hc : c < half_mod)
    (he : e < half_mod) where
  fits : (x y : ℕ) → x < half_mod → y < half_mod → u64 (x * y) ≡ x * y
  fits x y p q = let small = half_product x y p q in mod-eq_of_lt (omega arith)

  halves_product_lem :
      (wide_value (halves_product a b c e) ≡ halves a b * halves c e)
      × ((halves_product a b c e).low < word_mod)
  halves_product_lem =
      rw (fits a c ha hc, fits a e ha he, fits b c hb hc, fits b e hb he)
        (omega (
          arith,
          split_product a b c e,
          join_products_lem (a * c) (a * e) (b * c) (b * e) (half_product a c ha hc)
              (half_product a e ha he) (half_product b c hb hc) (half_product b e hb he),
        ))

  -- Two words may be added to the product of two words.
  with_carries :
      (d k : ℕ)
      → d < word_mod
      → k < word_mod
      → let w = add_low k (add_low d (halves_product a b c e)) in
        (wide_value w ≡ halves a b * halves c e + d + k) × (w.low < word_mod) × (w.high < word_mod)
  with_carries d k hd hk =
      let whole = halves_product_lem in
      let room : halves a b * halves c e ≤ (word_mod - 1) * (word_mod - 1) =
        mul-le-mul {n₂ = word_mod - 1} {m₂ = word_mod - 1} (omega arith) (omega arith) in
      let first = add_low_lem d (halves_product a b c e) hd whole.1 (omega arith) in
      let second = add_low_lem k (add_low d (halves_product a b c e)) hk first.1 (omega arith) in
      (omega arith, second.1, omega arith)

mul_word-halves :
    (x y d c : ℕ)
    → mul_word x y d c
      ≡ add_low c
          (add_low d (halves_product (x % half_mod) (x / half_mod) (y % half_mod) (y / half_mod)))
unfolding mul_word
mul_word-halves x y d c = rw (bit_and_mask 32 x, bit_and_mask 32 y)

-- The body of the inner loop of `mulabs` computes the product of two words plus two more words as
-- a high and a low word, without loss.
pub mul_word_lem :
    (x y d c : ℕ)
    → x < word_mod
    → y < word_mod
    → d < word_mod
    → c < word_mod
    → (wide_value (mul_word x y d c) ≡ x * y + d + c)
      × ((mul_word x y d c).low < word_mod)
      × ((mul_word x y d c).high < word_mod)
mul_word_lem x y d c hx hy hd hc =
    let same : halves (x % half_mod) (x / half_mod) * halves (y % half_mod) (y / half_mod) ≡ x * y =
      ap₂ ◌*◌ (omega arith) (omega arith) in
    let whole =
      with_carries (x % half_mod) (x / half_mod) (y % half_mod) (y / half_mod) (omega arith)
        (omega arith) (omega arith) (omega arith) d c hd hc in
    rw (mul_word-halves x y d c) (rw same at whole)
