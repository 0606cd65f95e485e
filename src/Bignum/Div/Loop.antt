-- ===== src/Bignum/Div/Loop.antt =====
-- The loop of long division, and `numbigdivabs` as division with remainder of the magnitudes.
use dummyscheme.Common.{
  ℕ, arith, zero, suc, ◌≤◌, ◌≡◌, length, ◌*◌, ◌^◌, ◌/◌, ap, ◌<◌, ◌+◌, ◌⊎◌, ◌≢◌, inl, ◌∙◌, inr, ◌-◌,
  replicate, length-replicate,
}
use dummyscheme.Bignum.{NumBig, IsValid, IsWords, magnitude, plus, copy}
use dummyscheme.Bignum.Div.{div_step, div_loop, NumBigDivRes, div_long}
use dummyscheme.Bignum.Shift.{numbigshr1absinline, numbigsetbitinline, bitlength, numbigshlabs}
use dummyscheme.Common.Powers.{two-pow-suc, two-pow-add, two-pow_mono}
use dummyscheme.Bignum.Shift.Right.{magnitude-numbigshr1absinline, numbigshr1absinline-IsValid}
use dummyscheme.Bignum.Shift.SetBit.{
  magnitude-numbigsetbitinline, numbigsetbitinline-IsWords, length-numbigsetbitinline,
}
use dummyscheme.Bignum.Add.{subabs}
use dummyscheme.Bignum.Order.{cmpabs-eq-compare}
use dummyscheme.Bignum.Add.Magnitude.{magnitude-subabs, subabs-IsValid}
use dummyscheme.Bignum.Value.{replicate-zero, magnitude-normalize, normalize-IsValid, length_pos}
use dummyscheme.Bignum.Shift.Left.{numbigshlabs-IsValid, magnitude-numbigshlabs}
use dummyscheme.Bignum.Shift.Length.{bitlength_lem}
use native.Mathlib.Nat.{mul-le-mul_right}
use native.Mathlib.Decide.{dec_lt}

-- Before the round for bit `n - 1`: what is left is below the divisor times `2 ^ n`, the quotient
-- is a multiple of `2 ^ n`, and the two account for the dividend.
record Inv (dividend divisor n : ℕ) (shifted_b : NumBig) (s : NumBigDivRes) : Type 0 where
  shifted_valid : IsValid shifted_b
  rem_valid : IsValid s.rem
  quot_words : IsWords s.quot.limbs
  room : n ≤ length s.quot.limbs * 64
  some_limb : 1 ≤ length s.quot.limbs
  shifted : magnitude shifted_b ≡ divisor * 2 ^ n / 2
  bound : magnitude s.rem < divisor * 2 ^ n
  times : ℕ
  multiple : magnitude s.quot ≡ 2 ^ n * times
  whole : magnitude s.quot * divisor + magnitude s.rem ≡ dividend

-- What a round does when `shifted_b` fits.
abbrev taken : ℕ → NumBig → NumBigDivRes → NumBigDivRes
taken i sh s = record { quot = numbigsetbitinline s.quot i; rem = subabs s.rem sh }

step-cases :
    (i : ℕ) (sh : NumBig) (s : NumBigDivRes)
    → IsValid sh
    → IsValid s.rem
    → ((div_step i sh s ≡ s) × (magnitude s.rem < magnitude sh))
      ⊎ ((div_step i sh s ≡ taken i sh s) × (magnitude sh ≤ magnitude s.rem))
unfolding div_step
step-cases i sh s v w = ground (arith, cmpabs-eq-compare s.rem sh w v)

module _ (dividend divisor : ℕ) where
  module _ (i : ℕ) (sh : NumBig) (s : NumBigDivRes) (v : Inv dividend divisor (suc i) sh s) where
    here : magnitude sh ≡ divisor * 2 ^ i
    here = omega (arith, v.shifted, ap (λ (t : ℕ). divisor * t) (two-pow-suc i))

    twice : divisor * 2 ^ suc i ≡ 2 * (divisor * 2 ^ i)
    twice = omega (arith, ap (λ (t : ℕ). divisor * t) (two-pow-suc i))

    next_shifted : magnitude (numbigshr1absinline sh) ≡ divisor * 2 ^ i / 2
    next_shifted = magnitude-numbigshr1absinline sh v.shifted_valid ∙ ap (λ (t : ℕ). t / 2) here

    doubled : magnitude s.quot ≡ 2 ^ i * (2 * v.times)
    doubled = omega (arith, v.multiple, ap (λ (t : ℕ). t * v.times) (two-pow-suc i))

    kept_Inv : magnitude s.rem < magnitude sh → Inv dividend divisor i (numbigshr1absinline sh) s
    kept_Inv small = record {
      shifted_valid = numbigshr1absinline-IsValid sh v.shifted_valid;
      rem_valid = v.rem_valid;
      quot_words = v.quot_words;
      room = omega arith;
      some_limb = v.some_limb;
      shifted = next_shifted;
      bound = omega (arith, here);
      times = 2 * v.times;
      multiple = doubled;
      whole = v.whole;
    }

    taken-Inv :
        magnitude sh ≤ magnitude s.rem
        → Inv dividend divisor i (numbigshr1absinline sh) (taken i sh s)
    taken-Inv large =
        let in_range : i / 64 < length s.quot.limbs = omega (arith, v.room) in
        let set = magnitude-numbigsetbitinline s.quot i v.times v.quot_words in_range v.multiple in
        let less = magnitude-subabs s.rem sh v.rem_valid v.shifted_valid large in
        record {
          shifted_valid = numbigshr1absinline-IsValid sh v.shifted_valid;
          rem_valid = subabs-IsValid s.rem sh v.rem_valid v.shifted_valid;
          quot_words = numbigsetbitinline-IsWords s.quot i v.times v.quot_words in_range v.multiple;
          room = omega (arith, v.room, length-numbigsetbitinline s.quot i);
          some_limb = omega (arith, v.some_limb, length-numbigsetbitinline s.quot i);
          shifted = next_shifted;
          bound = omega (arith, here, less, v.bound, twice);
          times = 2 * v.times + 1;
          multiple = omega (arith, set, doubled);
          whole = omega (arith, ap (λ (t : ℕ). t * divisor) set, less, here, v.whole);
        }

  step_Inv :
      (i : ℕ) (sh : NumBig) (s : NumBigDivRes)
      → Inv dividend divisor (suc i) sh s
      → Inv dividend divisor i (numbigshr1absinline sh) (div_step i sh s)
  step_Inv i sh s v = elim (step-cases i sh s v.shifted_valid v.rem_valid) [
    | inl kept ↦ rw kept.0 (kept_Inv i sh s v kept.1)
    | inr took ↦ rw took.0 (taken-Inv i sh s v took.1)
  ]

  loop_Inv :
      (n : ℕ) (sh : NumBig) (s : NumBigDivRes)
      → Inv dividend divisor n sh s
      → (sh' : NumBig) × Inv dividend divisor 0 sh' (div_loop n sh s)
  unfolding div_loop
  loop_Inv zero sh s v = (sh, v)
  loop_Inv (suc i) sh s v =
      loop_Inv i (numbigshr1absinline sh) (div_step i sh s) (step_Inv i sh s v)

exponent_le : (m n : ℕ) → 2 ^ n < 2 ^ suc m → n ≤ m
exponent_le m n h = elim (dec_lt m n) [
  | yes more ↦ absurd (omega (arith, two-pow_mono (suc m) n more))
  | no less ↦ omega arith
]

-- `q` and `r` are the quotient and the remainder of the two magnitudes, in valid objects.
pub record Divides (a b : NumBig) (res : NumBigDivRes) : Type 0 where
  pub quot_valid : IsValid res.quot
  pub rem_valid : IsValid res.rem
  pub whole : magnitude res.quot * magnitude b + magnitude res.rem ≡ magnitude a
  pub bound : magnitude res.rem < magnitude b

module _ (a b : NumBig) (v : IsValid a) (w : IsValid b) (nonzero : magnitude b ≢ 0) where
  abbrev shift : ℕ
  shift = bitlength a - bitlength b

  abbrev start : NumBigDivRes
  start = record {
    quot = record { sign = plus; limbs = replicate (shift / 64 + 1) 0 };
    rem = copy a;
  }

  module _ (larger : magnitude b < magnitude a) where
    -- The dividend is below the divisor shifted by one bit more than `shift`.
    shift_enough : magnitude a < magnitude b * 2 ^ suc shift
    shift_enough =
        let (la, ea, low_a, high_a) = bitlength_lem a v (omega arith) in
        let (lb, eb, low_b, high_b) = bitlength_lem b w nonzero in
        let order : lb ≤ la = exponent_le la lb (omega arith) in
        let count : lb + suc shift ≡ suc la = omega (arith, ea, eb) in
        omega (
          arith,
          mul-le-mul_right (2 ^ suc shift) low_b,
          two-pow-add lb (suc shift),
          ap (λ (t : ℕ). 2 ^ t) count,
        )

    start-Inv : Inv (magnitude a) (magnitude b) (suc shift) (numbigshlabs b shift) start
    unfolding copy
    start-Inv =
        let zeros = replicate-zero (shift / 64 + 1) in
        record {
          shifted_valid = numbigshlabs-IsValid b w shift;
          rem_valid = record { words = v.words; trimmed = v.trimmed };
          quot_words = zeros.1;
          room = omega (arith, length-replicate {A = ℕ} (shift / 64 + 1) 0);
          some_limb = omega (arith, length-replicate {A = ℕ} (shift / 64 + 1) 0);
          shifted = omega (
            arith,
            magnitude-numbigshlabs b w shift,
            ap (λ (t : ℕ). magnitude b * t) (two-pow-suc shift),
          );
          bound = shift_enough;
          times = 0;
          multiple = omega (arith, zeros.0);
          whole = omega (arith, ap (λ (t : ℕ). t * magnitude b) zeros.0);
        }

    -- Long division.
    pub div_long-Divides : Divides a b (div_long a b)
    unfolding div_long
    div_long-Divides =
        let res = div_loop (suc shift) (numbigshlabs b shift) start in
        let (sh, inv) =
          loop_Inv (magnitude a) (magnitude b) (suc shift) (numbigshlabs b shift) start start-Inv in
        let quot = magnitude-normalize res.quot in
        let rem = magnitude-normalize res.rem in
        record {
          quot_valid = normalize-IsValid res.quot.sign res.quot.limbs inv.quot_words inv.some_limb;
          rem_valid =
              normalize-IsValid res.rem.sign res.rem.limbs inv.rem_valid.words
                (length_pos res.rem.limbs inv.rem_valid.trimmed);
          whole = omega (arith, rem, ap (λ (t : ℕ). t * magnitude b) quot, inv.whole);
          bound = omega (arith, rem, inv.bound);
        }
