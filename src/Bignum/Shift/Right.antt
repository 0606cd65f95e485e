-- ===== src/Bignum/Shift/Right.antt =====
-- `numbigshr1absinline` halves the magnitude.
use dummyscheme.Common.{
  ℕ, arith, [], refl, List, ◌*◌, ◌+◌, ◌≡◌, ◌≤◌, ◌/◌, length, ◌∷◌, bit_or, ◌>>>◌, ◌<<<◌, ◌^◌,
  bit_and, ◌%◌,
}
use dummyscheme.Bignum.Shift.{shr1_limbs, numbigshr1absinline}
use dummyscheme.Bignum.{NumBig, IsValid, IsWords, normalize, value, magnitude}
use dummyscheme.Bignum.Value.{normalize-IsValid, length_pos, value-trim}
use dummyscheme.Common.Bits.{disjoint_bit_or, bit_and_mask}

shr1_limbs_lem :
    (xs : List ℕ)
    → IsWords xs
    → (2 * value (shr1_limbs xs).0 + (shr1_limbs xs).1 ≡ value xs)
      × ((shr1_limbs xs).1 ≤ 1)
      × IsWords (shr1_limbs xs).0
      × (length (shr1_limbs xs).0 ≡ length xs)
unfolding shr1_limbs
shr1_limbs_lem [] h = (refl, omega arith, tt, refl)
shr1_limbs_lem (x ∷ xs) h =
    let rest = shr1_limbs_lem xs h.1 in
    let carry = (shr1_limbs xs).1 in
    let joined : bit_or (x >>> 1) (carry <<< 63) ≡ carry * 2 ^ 63 + x / 2 =
      let plain : carry <<< 63 ≡ carry * 2 ^ 63 = omega (arith, rest) in
      rw plain (disjoint_bit_or 63 carry (x / 2) (omega (arith, h.0))) in
    let bit : bit_and x 1 ≡ x % 2 = bit_and_mask 1 x in
    (
      omega (arith, rest, joined, bit),
      omega (arith, bit),
      (omega (arith, rest, joined), rest.2),
      omega (arith, rest),
    )

module _ (a : NumBig) (v : IsValid a) where
  -- On a valid bignum `numbigshr1absinline` halves the magnitude, rounding down.
  pub magnitude-numbigshr1absinline : magnitude (numbigshr1absinline a) ≡ magnitude a / 2
  unfolding numbigshr1absinline normalize
  magnitude-numbigshr1absinline =
      omega (arith, value-trim (shr1_limbs a.limbs).0, shr1_limbs_lem a.limbs v.words)

  pub numbigshr1absinline-IsValid : IsValid (numbigshr1absinline a)
  unfolding numbigshr1absinline
  numbigshr1absinline-IsValid =
      let whole = shr1_limbs_lem a.limbs v.words in
      normalize-IsValid a.sign (shr1_limbs a.limbs).0 whole.2
        (omega (arith, whole.3, length_pos a.limbs v.trimmed))
