-- ===== src/Bignum/Decimal/Chunks.antt =====
-- One pass of `tostr`: division of the whole number by 10 ^ 9.
use dummyscheme.Common.{
  ℕ, arith, [], refl, ◌<◌, List, word_mod, half_mod, ◌*◌, ◌+◌, ◌≡◌, length, ◌∷◌, bit_or, ◌/◌, ◌<<<◌,
  ◌%◌, ◌^◌,
}
use dummyscheme.Bignum.Decimal.{div128by64, div_limbs, uint_base}
use dummyscheme.Bignum.{IsWords, value}
use native.Mathlib.Nat.{div-lt_iff_lt-mul, mul-le-mul_left, mod-lt, div-add-mod}
use dummyscheme.Common.Bits.{bit_or_disjoint, bit_and_mask}

-- Two halves of a word.
join_halves :
    (hi lo : ℕ) → hi < half_mod → lo < half_mod → bit_or (hi <<< 32) lo ≡ hi * half_mod + lo
join_halves hi lo p q =
    let plain : hi <<< 32 ≡ hi * 2 ^ 32 = omega arith in rw plain (bit_or_disjoint 32 hi lo q)

div_small : (hi lo d : ℕ) → hi < d → lo < half_mod → (hi * half_mod + lo) / d < half_mod
div_small hi lo d p q =
    (div-lt_iff_lt-mul (omega arith)).1 (omega (arith, mul-le-mul_left half_mod p))

-- For a divisor below 2 ^ 32 and a high word below the divisor, `div128by64` divides the two
-- words with remainder, and the quotient fits a word.
div128by64_lem :
    (hi lo d : ℕ)
    → hi < d
    → lo < word_mod
    → d < half_mod
    → ((div128by64 hi lo d).quot_lo * d + (div128by64 hi lo d).rem ≡ hi * word_mod + lo)
      × ((div128by64 hi lo d).rem < d)
      × ((div128by64 hi lo d).quot_lo < word_mod)
unfolding div128by64
div128by64_lem hi lo d hh hl hd =
    let d_pos : 0 < d = omega arith in
    let p1 = hi * half_mod + lo / half_mod in
    let r1 : p1 % d < d = mod-lt p1 d_pos in
    let p0 = p1 % d * half_mod + lo % half_mod in
    let r0 : p0 % d < d = mod-lt p0 d_pos in
    let q1 : p1 / d < half_mod = div_small hi (lo / half_mod) d hh (omega arith) in
    let q0 : p0 / d < half_mod = div_small (p1 % d) (lo % half_mod) d r1 (omega arith) in
    rw
      (
        bit_and_mask 32 lo,
        join_halves hi (lo / half_mod) (omega arith) (omega arith),
        join_halves (p1 % d) (lo % half_mod) (omega arith) (omega arith),
        join_halves (p1 / d) (p0 / d) q1 q0,
      )
      (omega (arith, div-add-mod p1 d, div-add-mod p0 d), r0, omega (arith, q1, q0))

pub div_limbs_lem :
    (xs : List ℕ)
    → IsWords xs
    → (value (div_limbs xs).0 * uint_base + (div_limbs xs).1 ≡ value xs)
      × ((div_limbs xs).1 < uint_base)
      × IsWords (div_limbs xs).0
      × (length (div_limbs xs).0 ≡ length xs)
unfolding div_limbs
div_limbs_lem [] h = (refl, omega arith, tt, refl)
div_limbs_lem (x ∷ xs) h =
    let rest = div_limbs_lem xs h.1 in
    let d = div128by64_lem (div_limbs xs).1 x uint_base rest.1 h.0 (omega arith) in
    (omega (arith, rest, d), d.1, (d.2, rest.2), omega (arith, rest))
