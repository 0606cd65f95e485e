-- ===== src/Bignum/Shift/Left.antt =====
-- `numbigshlabs` multiplies the magnitude by a power of 2.
use native.Mathlib.Nat.{div-add-mod, mod-lt, mul-le-mul_right, div-lt_iff_lt-mul, zero-mul}
use dummyscheme.Common.{
  ℕ, arith, [], refl, ◌<◌, ◌^◌, word_mod, ◌*◌, ◌<<<◌, ◌-◌, ◌≡◌, sym, ◌%◌, ◌+◌, ◌∙◌, ◌>>>◌, ap, ◌/◌,
  ◌≤◌, suc, List, ◌∷◌, bit_or, length, ◌++◌, replicate, Bool-cases, length-replicate, ◌==◌, inl,
  ==→eq, inr, length-append, if◌then◌else◌, zero,
}
use dummyscheme.Common.Powers.{two-pow-add, two-pow-pos, two-pow_mono}
use dummyscheme.Bignum.Shift.{shl_limbs, numbigshlabs}
use dummyscheme.Bignum.{IsWords, value, weight, NumBig, IsValid, magnitude, normalize, copy}
use dummyscheme.Common.Bits.{bit_or_disjoint}
use dummyscheme.Bignum.Value.{
  replicate-zero, value-append, value-trim, normalize-IsValid, length_pos, weight-two-pow,
}

whole : (b : ℕ) → b < 64 → b + (64 - b) ≡ 64
whole b h = omega arith

-- `2 ^ 64`, cut at a shift count below 64.
word-split : (b : ℕ) → b < 64 → 2 ^ b * 2 ^ (64 - b) ≡ word_mod
word-split b h = sym (two-pow-add b (64 - b)) ∙ ap (λ (t : ℕ). 2 ^ t) (whole b h)

-- One limb shifted: the bits that stay and the bits that go on make up `x * 2 ^ b`.
shl_parts :
    (b x : ℕ)
    → b < 64
    → x < word_mod
    → (x <<< b ≡ x % 2 ^ (64 - b) * 2 ^ b)
      × (x <<< b + word_mod * (x >>> (64 - b)) ≡ x * 2 ^ b)
      × (x >>> (64 - b) < 2 ^ b)
      × (x <<< b + 2 ^ b ≤ word_mod)
shl_parts b x hb hx =
    let p = 2 ^ b in
    let q = 2 ^ (64 - b) in
    let split : p * q ≡ word_mod = word-split b hb in
    let h = x / q in
    let l = x % q in
    let q_pos : 1 ≤ q = two-pow-pos (64 - b) in
    let cut : q * h + l ≡ x = div-add-mod x q in
    let l_small : suc l ≤ q = mod-lt x q_pos in
    let shifted : x * p ≡ word_mod * h + l * p =
      omega (arith, ap (λ (t : ℕ). t * p) cut, ap (λ (t : ℕ). t * h) split) in
    let l_room : suc l * p ≤ q * p = mul-le-mul_right p l_small in
    let low : x <<< b ≡ l * p = omega (arith, shifted, l_room, split, two-pow-pos b) in
    (
      low,
      omega (arith, low, shifted),
      (div-lt_iff_lt-mul q_pos).1 (omega (arith, split)),
      omega (arith, low, l_room, split),
    )

shl_limbs-zero : (xs : List ℕ) (c : ℕ) → shl_limbs 0 xs c ≡ xs
unfolding shl_limbs
shl_limbs-zero [] c = refl
shl_limbs-zero (x ∷ xs) c = ap (λ t. x ∷ t) (shl_limbs-zero xs c)

-- With a count between 1 and 63 the loop multiplies by `2 ^ b` and adds the carry into it.
shl_limbs_lem :
    (b : ℕ) (xs : List ℕ) (c : ℕ)
    → 0 < b
    → b < 64
    → IsWords xs
    → c < 2 ^ b
    → (value (shl_limbs b xs c) ≡ value xs * 2 ^ b + c) × IsWords (shl_limbs b xs c)
unfolding shl_limbs
shl_limbs_lem b [] c pos hb hx hc =
    let room : 2 ^ b ≤ 2 ^ 64 = two-pow_mono b 64 (omega arith) in
    (ground (arith, zero-mul (2 ^ b)), ground arith)
shl_limbs_lem b (x ∷ xs) c pos hb hx hc =
    let parts = shl_parts b x hb hx.0 in
    let joined : bit_or (x <<< b) c ≡ x <<< b + c =
      rw parts.0 (bit_or_disjoint b (x % 2 ^ (64 - b)) c hc) in
    let rest = shl_limbs_lem b xs (x >>> (64 - b)) pos hb hx.1 parts.2 in
    let fits : x <<< b + c < word_mod = omega (arith, parts) in
    ground (arith, joined, parts, rest, fits)

length-shl_limbs : (b : ℕ) (xs : List ℕ) (c : ℕ) → length xs ≤ length (shl_limbs b xs c)
unfolding shl_limbs
length-shl_limbs b [] c = omega arith
length-shl_limbs b (x ∷ xs) c =
    omega (arith, length-shl_limbs b xs (if b == 0 then c else x >>> (64 - b)))

-- Any count below 64.
shl_limbs_any :
    (b : ℕ) (xs : List ℕ)
    → b < 64
    → IsWords xs
    → (value (shl_limbs b xs 0) ≡ value xs * 2 ^ b) × IsWords (shl_limbs b xs 0)
shl_limbs_any zero xs hb hx = rw (shl_limbs-zero xs 0) (omega arith, hx)
shl_limbs_any (suc b) xs hb hx =
    let whole = shl_limbs_lem (suc b) xs 0 (omega arith) hb hx (two-pow-pos (suc b)) in
    (omega (arith, whole.0), whole.1)

append-IsWords : (xs ys : List ℕ) → IsWords xs → IsWords ys → IsWords (xs ++ ys)
append-IsWords [] ys h k = k
append-IsWords (x ∷ xs) ys h k = (h.0, append-IsWords xs ys h.1 k)

module _ (a : NumBig) (v : IsValid a) (s : ℕ) where
  abbrev low_zeros : List ℕ
  low_zeros = replicate (s / 64) 0

  abbrev shifted : List ℕ
  shifted = shl_limbs (s % 64) a.limbs 0

  shifted_lem : (value shifted ≡ magnitude a * 2 ^ (s % 64)) × IsWords shifted
  shifted_lem = shl_limbs_any (s % 64) a.limbs (omega arith) v.words

  value-shifted : value (low_zeros ++ shifted) ≡ magnitude a * 2 ^ s
  value-shifted =
      let zeros = replicate-zero (s / 64) in
      let count : s % 64 + s / 64 * 64 ≡ s = omega arith in
      omega (
        arith,
        value-append low_zeros shifted,
        zeros.0,
        ap (λ (t : ℕ). weight t * value shifted) (length-replicate {A = ℕ} (s / 64) 0),
        ap (λ (t : ℕ). t * value shifted) (weight-two-pow (s / 64)),
        ap (λ (t : ℕ). 2 ^ (s / 64 * 64) * t) shifted_lem.0,
        ap (λ (t : ℕ). magnitude a * t) (two-pow-add (s % 64) (s / 64 * 64)),
        ap (λ (t : ℕ). magnitude a * 2 ^ t) count,
      )

  -- On a valid bignum `numbigshlabs` multiplies the magnitude by two to the number of bits.
  pub magnitude-numbigshlabs : magnitude (numbigshlabs a s) ≡ magnitude a * 2 ^ s
  unfolding numbigshlabs normalize copy
  magnitude-numbigshlabs = elim (Bool-cases (s == 0)) [
    | inl e ↦ rw e (omega (arith, ap (λ (t : ℕ). magnitude a * 2 ^ t) (==→eq s 0 e)))
    | inr e ↦ rw e (value-trim (low_zeros ++ shifted) ∙ value-shifted)
  ]

  pub numbigshlabs-IsValid : IsValid (numbigshlabs a s)
  unfolding numbigshlabs copy
  numbigshlabs-IsValid = elim (Bool-cases (s == 0)) [
    | inl e ↦ rw e v
    | inr e ↦ rw e (
        normalize-IsValid a.sign (low_zeros ++ shifted)
          (append-IsWords low_zeros shifted (replicate-zero (s / 64)).1 shifted_lem.1)
          (omega (
            arith,
            length-append {0} low_zeros shifted,
            length-shl_limbs (s % 64) a.limbs 0,
            length_pos a.limbs v.trimmed,
          )))
  ]
