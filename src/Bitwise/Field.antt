-- ===== src/Bitwise/Field.antt =====
-- `bit-field`, `bit-length` and `bitwise-not` in terms of arithmetic.
use dummyscheme.Common.{
  some, zero, suc, ℕ, ◌<◌, ◌/◌, ◌≡◌, word_mod, ◌^◌, bit_and, ◌≤◌, arith, ◌<<<◌, ◌%◌, ◌+◌, ◌-◌, ◌*◌,
  Bool-cases, ap, leb, ◌&&◌, ◌∙◌, true, inl, inr, sym, ◌==◌, false,
}
use dummyscheme.Common.Int.{ℤ, pos, negsuc, ◌-ℤ◌, leb_ℤ, pos_part, neg_part}
use dummyscheme.Bitwise.{
  bitwise_not, field_bits, bit_field, length_rounds, magnitude_bits, bit_length,
}
use dummyscheme.Fixnum.{IsInt}
use native.Mathlib.Nat.{div-eq_of_lt, div-add-mod, mul-le-mul_right, mod-eq_of_lt}
use dummyscheme.Common.Signed.{to_signed, to_word}
use dummyscheme.Common.Powers.{two-pow_mono, two-pow-pos, two-pow-suc}
use dummyscheme.Common.Bits.{bit_and_mask}

-- For a fixnum in range, `bitwise-not` is -1 less the number.
bitwise_not_lem : (x : ℤ) → IsInt x → bitwise_not x ≡ negsuc 0 -ℤ x
unfolding bitwise_not ◌-ℤ◌
bitwise_not_lem x h = ground arith

shifted_out : (x s : ℕ) → x < word_mod → 64 ≤ s → x / 2 ^ s ≡ 0
shifted_out x s h l = div-eq_of_lt (omega (arith, two-pow_mono 64 s l))

quotient-le : (x s : ℕ) → x / 2 ^ s ≤ x
quotient-le x s = omega (arith, div-add-mod x (2 ^ s), mul-le-mul_right (x / 2 ^ s) (two-pow-pos s))

width_mask : (x w : ℕ) → w < 64 → bit_and x ((1 <<< w) - 1) ≡ x % 2 ^ w
width_mask x w h =
    let plain : 1 <<< w ≡ 2 ^ w = omega (
      arith,
      mod-eq_of_lt {n = 2 ^ w} {m = word_mod} (omega (arith, two-pow_mono w 63 (omega arith))),
    ) in
    ap (λ t. bit_and x (t - 1)) plain ∙ bit_and_mask w x

-- The field of a word: what is above bit `s`, without what is above bit `e`.
pub field_bits_lem : (x s e : ℕ) → x < word_mod → s ≤ e → field_bits x s e ≡ x / 2 ^ s % 2 ^ (e - s)
unfolding field_bits
field_bits_lem x s e h l = elim (Bool-cases (leb 64 s)) [
  | inl out ↦
      rw (out, shifted_out x s h (ground (arith, out)))
        (omega (arith, mod-eq_of_lt {n = 0} {m = 2 ^ (e - s)} (two-pow-pos (e - s))))
  | inr inside ↦ elim (Bool-cases (leb 64 (e - s))) [
    | inl wide ↦
        rw (inside, wide)
          (sym (
            mod-eq_of_lt
              (omega (arith, h, quotient-le x s, two-pow_mono 64 (e - s) (ground (arith, wide))))))
    | inr within ↦ rw (inside, within) (width_mask (x / 2 ^ s) (e - s) (ground (arith, within)))
  ]
]

to_word-lt : (p : ℤ) → IsInt p → to_word p < word_mod
to_word-lt (pos n) h = omega (arith, h)
to_word-lt (negsuc n) h = omega arith

-- For a fixnum in range and indices in order, `bit-field` succeeds with the word divided by two
-- to the start, modulo two to the length of the field.
bit_field_lem :
    (p : ℤ) (s e : ℕ)
    → IsInt p
    → s ≤ e
    → bit_field p (pos s) (pos e) ≡ some (to_signed (to_word p / 2 ^ s % 2 ^ (e - s)))
unfolding bit_field
bit_field_lem p s e h l =
    let ok : (leb_ℤ (pos 0) (pos s) && leb_ℤ (pos s) (pos e)) ≡ true = ground arith in
    rw (ok, field_bits_lem (to_word p) s e (to_word-lt p h) l)

-- The loop of `bit-length` adds the bits of the word.
length_rounds_lem :
    (fuel ux len : ℕ)
    → ux < 2 ^ fuel
    → (b : ℕ) × (length_rounds fuel ux len ≡ len + b) × (ux < 2 ^ b) × (2 ^ b ≤ 2 * ux + (1 - ux))
unfolding length_rounds
length_rounds_lem zero ux len h = (0, omega arith, h, omega arith)
length_rounds_lem (suc fuel) zero len h = (0, ground arith, omega arith, omega arith)
length_rounds_lem (suc fuel) (suc x) len h =
    let (b, run, below, least) =
      length_rounds_lem fuel (suc x / 2) (len + 1) (omega (arith, h, two-pow-suc fuel)) in
    let more : (suc x == 0) ≡ false = ground arith in
    (
      suc b,
      rw (more, run) (omega arith),
      omega (arith, below, two-pow-suc b),
      omega (arith, least, two-pow-suc b),
    )

magnitude_bits_lem : (x : ℤ) → IsInt x → magnitude_bits x ≡ pos_part x + (neg_part x - 1)
unfolding magnitude_bits
magnitude_bits_lem x h = ground arith

magnitude_bits-lt : (x : ℤ) → IsInt x → magnitude_bits x < 2 ^ 64
magnitude_bits-lt x h = ground (arith, magnitude_bits_lem x h)

-- `b` bits are enough for `n`, and no fewer; no bit is needed for 0.
abbrev pub IsLength : ℕ → ℕ → Type 0
IsLength n b = (n < 2 ^ b) × (2 ^ b ≤ 2 * n + (1 - n))

-- For a fixnum in range, `bit-length` is the least number of bits that hold it, or its complement
-- if it is negative.
bit_length-IsLength : (x : ℤ) → IsInt x → IsLength (pos_part x + (neg_part x - 1)) (bit_length x)
unfolding bit_length
bit_length-IsLength x h =
    let (b, run, below, least) =
      length_rounds_lem 64 (magnitude_bits x) 0 (magnitude_bits-lt x h) in
    let same = magnitude_bits_lem x h in
    let none_before : 0 + b ≡ b = omega arith in rw (run, none_before, ← same) (below, least)
