-- ===== src/Bignum/Shift/Length.antt =====
-- `bitlength` is the number of binary digits of the magnitude.
use dummyscheme.Common.{
  ℕ, arith, [], refl, zero, suc, ◌≡◌, ◌<◌, List, ◌^◌, ◌+◌, ◌∷◌, word_mod, ◌≢◌, ◌≤◌, Bool-cases,
  length, ltb, ◌*◌, ◌/◌, inl, ltb→lt, lt→ltb, inr, ltb-false→le, if◌then◌else◌, ◌==◌, ◌&&◌, ◌-◌,
  ◌∙◌, ap, sym,
}
use dummyscheme.Bignum.Shift.{count_bits, top_limb, bitlength}
use dummyscheme.Bignum.{NumBig, IsValid, IsWords, IsTrimmed, magnitude, value, weight}
use dummyscheme.Bignum.Order.{weight-le-value}
use dummyscheme.Bignum.Value.{weight_pos, weight-two-pow}
use dummyscheme.Common.Powers.{two-pow-suc, two-pow-add}
use native.Mathlib.Nat.{mul-le-mul_left}

count_bits-zero : (f b : ℕ) → count_bits f 0 b ≡ b
unfolding count_bits
count_bits-zero zero b = refl
count_bits-zero (suc f) b = refl

count_bits_lem :
    (f t b : ℕ)
    → 0 < t
    → t < 2 ^ f
    → (k : ℕ) × (count_bits f t b ≡ b + suc k) × (2 ^ k ≤ t) × (t < 2 ^ suc k)
unfolding count_bits
count_bits_lem zero t b pos h = absurd (omega arith)
count_bits_lem (suc f) t b pos h = elim (Bool-cases (ltb 0 (t / 2))) [
  | inl more ↦
      let (k, counts, low, high) =
        count_bits_lem f (t / 2) (b + 1) (ltb→lt 0 (t / 2) more) (omega (arith, two-pow-suc f)) in
      (
        suc k,
        rw (lt→ltb 0 t pos) (omega (arith, counts)),
        omega (arith, two-pow-suc k),
        omega (arith, two-pow-suc (suc k)),
      )
  | inr done ↦
      let last : t / 2 ≡ 0 = omega (arith, ltb-false→le 0 (t / 2) done) in
      (0, rw (lt→ltb 0 t pos, last) (count_bits-zero f (b + 1)), omega arith, omega (arith, last))
]

-- The top limb with its weight is the number, up to one unit of that weight.
top_limb_bounds :
    (x : ℕ) (xs : List ℕ)
    → IsWords (x ∷ xs)
    → (weight (length xs) * top_limb (x ∷ xs) ≤ value (x ∷ xs))
      × (value (x ∷ xs) < weight (length xs) * suc (top_limb (x ∷ xs)))
unfolding top_limb
top_limb_bounds x [] h = (omega arith, omega arith)
top_limb_bounds x (y ∷ r) h =
    let rest = top_limb_bounds y r h.1 in (omega (arith, rest.0), omega (arith, h.0, rest.1))

top_limb_pos : (xs : List ℕ) → IsTrimmed xs → value xs ≢ 0 → 0 < top_limb xs
unfolding top_limb
top_limb_pos [] t h = absurd t
top_limb_pos (x ∷ []) t h = omega (arith, h)
top_limb_pos (x ∷ y ∷ []) t h = omega (arith, t)
top_limb_pos (x ∷ y ∷ z ∷ r) t h =
    top_limb_pos (y ∷ z ∷ r) t
      (λ e. absurd (omega (arith, weight-le-value y z r t, weight_pos (length r), e)))

top_limb-lt : (xs : List ℕ) → IsWords xs → top_limb xs < word_mod
unfolding top_limb
top_limb-lt [] h = omega arith
top_limb-lt (x ∷ []) h = h.0
top_limb-lt (x ∷ y ∷ r) h = top_limb-lt (y ∷ r) h.1

bits_lem :
    (xs : List ℕ)
    → IsWords xs
    → IsTrimmed xs
    → value xs ≢ 0
    → (k : ℕ) × ((if length xs == 1 && top_limb xs == 0
          then 0
          else count_bits 64 (top_limb xs) ((length xs - 1) * 64))
        ≡ suc k)
      × (2 ^ k ≤ value xs)
      × (value xs < 2 ^ suc k)
bits_lem [] w t h = absurd t
bits_lem (x ∷ xs) w t h =
    let top = top_limb (x ∷ xs) in
    let n = length xs in
    let pos : 0 < top = top_limb_pos (x ∷ xs) t h in
    let (k, counts, low, high) =
      count_bits_lem 64 top ((suc n - 1) * 64) pos (top_limb-lt (x ∷ xs) w) in
    let bounds = top_limb_bounds x xs w in
    let power : (j : ℕ) → 2 ^ (n * 64 + j) ≡ weight n * 2 ^ j =
      λ j. two-pow-add (n * 64) j ∙ ap (λ (z : ℕ). z * 2 ^ j) (sym (weight-two-pow n)) in
    let place : suc (n * 64 + k) ≡ n * 64 + suc k = omega arith in
    (
      n * 64 + k,
      ground (arith, counts),
      omega (arith, power k, bounds, mul-le-mul_left (weight n) low),
      omega (
        arith,
        ap (λ (z : ℕ). 2 ^ z) place,
        power (suc k),
        bounds,
        mul-le-mul_left (weight n) high,
      ),
    )

-- On a valid bignum that is not 0, `bitlength` is the number of binary digits of the magnitude.
pub bitlength_lem :
    (a : NumBig)
    → IsValid a
    → magnitude a ≢ 0
    → (k : ℕ) × (bitlength a ≡ suc k) × (2 ^ k ≤ magnitude a) × (magnitude a < 2 ^ suc k)
unfolding bitlength
bitlength_lem a v h = bits_lem a.limbs v.words v.trimmed h
