-- ===== src/Fixnum/Round.antt =====
-- `exact_round` rounds to the nearest integer, and a tie to the even one.
use dummyscheme.Common.{
  ℕ, ◌%◌, ◌<◌, if◌then◌else◌, ◌*◌, ◌==◌, ◌≤◌, ◌/◌, ◌+◌, ltb, ◌≡◌, ◌≢◌, arith, Bool-cases, inl, inr,
  suc, false, Bool, true, zero, ◌∙◌, refl, ◌-◌, ap, ◌^◌,
}
use dummyscheme.Common.Int.{pos, negsuc, ℤ, ◌-ℤ◌, ◌+ℤ◌, sub_ℕ, ◌*ℤ◌, ltb_ℤ}
use dummyscheme.Bignum.{plus, minus, Sign, with_sign}
use dummyscheme.Fixnum.{exact_round, away, differ, abs, round_from, ◌%ℤ◌, IsInt, int_min}
use native.Mathlib.Nat.{div-add-mod, mod-lt}

-- The same on magnitudes.
round_parts : ℕ → ℕ → ℕ → ℕ
round_parts q r d =
    if r == 0
    then q
    else if ltb d (r + r)
    then q + 1
    else if ltb (r + r) d
    then q
    else if q % 2 == 0
    then q
    else q + 1

round_ℕ : ℕ → ℕ → ℕ
unfolding round_parts
round_ℕ n d = round_parts (n / d) (n % d) d

round_ℕ-nearest :
    (n d : ℕ)
    → 0 < d
    → (n * 2 ≤ round_ℕ n d * d * 2 + d)
      × (round_ℕ n d * d * 2 ≤ n * 2 + d)
      × (n * 2 ≡ round_ℕ n d * d * 2 + d → round_ℕ n d % 2 ≡ 0)
      × (round_ℕ n d * d * 2 ≡ n * 2 + d → round_ℕ n d % 2 ≡ 0)
unfolding round_ℕ
round_ℕ-nearest n d h =
    let parts = div-add-mod n d in
    let small = mod-lt n h in
    elim (Bool-cases (n % d == 0)) [
      | inl exact ↦ rw exact (ground (arith, parts, exact))
      | inr inexact ↦ elim (Bool-cases (ltb d (n % d + n % d))) [
        | inl up ↦ rw (inexact, up) (ground (arith, parts, small, up))
        | inr not_up ↦ elim (Bool-cases (ltb (n % d + n % d) d)) [
          | inl down ↦ rw (inexact, not_up, down) (ground (arith, parts, down))
          | inr tie ↦ elim (Bool-cases (n / d % 2 == 0)) [
            | inl even ↦ rw (inexact, not_up, tie, even) (ground (arith, parts, not_up, tie, even))
            | inr odd ↦ rw (inexact, not_up, tie, odd) (ground (arith, parts, not_up, tie, odd))
          ]
        ]
      ]
    ]

signed : ℤ → ℤ → Sign
signed (pos n) (pos d) = plus
signed (pos n) (negsuc d) = minus
signed (negsuc n) (pos d) = minus
signed (negsuc n) (negsuc d) = plus

-- Both signs, by the parts.
round_from-plus : (q r d : ℕ) → round_from (pos q) (pos r) false d ≡ pos (round_parts q r d)
unfolding round_from away ◌+ℤ◌ round_parts
round_from-plus q r d = ground arith

round_from-minus : (q r d : ℕ) → round_from (sub_ℕ 0 q) (pos r) true d ≡ sub_ℕ 0 (round_parts q r d)
unfolding round_from away ◌-ℤ◌ round_parts
round_from-minus zero r d = ground arith
round_from-minus (suc q) r d = ground arith

-- The remainder's sign plays no part.
round_from-sub_ℕ :
    (q : ℤ) (neg : Bool) (r d : ℕ) → round_from q (sub_ℕ 0 r) neg d ≡ round_from q (pos r) neg d
unfolding round_from
round_from-sub_ℕ q neg zero d = refl
round_from-sub_ℕ q neg (suc r) d = ground arith

-- The signs differ exactly if the quotient is not positive.
opposite : ℤ → ℤ → Bool
opposite nu de = differ (ltb_ℤ nu (pos 0)) (ltb_ℤ de (pos 0))

same-plus : (n d : ℕ) → opposite (pos n) (pos d) ≡ false
unfolding opposite differ
same-plus n d = ground arith

mixed-plus : (n d : ℕ) → opposite (pos n) (negsuc d) ≡ true
unfolding opposite differ
mixed-plus n d = ground arith

mixed-minus : (n d : ℕ) → opposite (negsuc n) (pos d) ≡ true
unfolding opposite differ
mixed-minus n d = ground arith

same-minus : (n d : ℕ) → opposite (negsuc n) (negsuc d) ≡ false
unfolding opposite differ
same-minus n d = ground arith

exact_round_lem :
    (nu de : ℤ)
    → de ≢ pos 0
    → exact_round nu de ≡ with_sign (signed nu de) (round_ℕ (abs nu) (abs de))
unfolding exact_round opposite round_ℕ signed
exact_round_lem (pos n) (pos d) h =
    ap (λ neg. round_from (pos (n / d)) (pos (n % d)) neg d) (same-plus n d)
    ∙ round_from-plus (n / d) (n % d) d
exact_round_lem (pos n) (negsuc d) h =
    ap (λ neg. round_from (sub_ℕ 0 (n / suc d)) (pos (n % suc d)) neg (suc d)) (mixed-plus n d)
    ∙ round_from-minus (n / suc d) (n % suc d) (suc d)
exact_round_lem (negsuc n) (pos d) h =
    ap (λ neg. round_from (sub_ℕ 0 (suc n / d)) (sub_ℕ 0 (suc n % d)) neg d) (mixed-minus n d)
    ∙ round_from-sub_ℕ (sub_ℕ 0 (suc n / d)) true (suc n % d) d
    ∙ round_from-minus (suc n / d) (suc n % d) d
exact_round_lem (negsuc n) (negsuc d) h =
    ap (λ neg. round_from (pos (suc n / suc d)) (sub_ℕ 0 (suc n % suc d)) neg (suc d))
      (same-minus n d)
    ∙ round_from-sub_ℕ (pos (suc n / suc d)) false (suc n % suc d) (suc d)
    ∙ round_from-plus (suc n / suc d) (suc n % suc d) (suc d)

with_sign-parity : (s : Sign) (n : ℕ) → n % 2 ≡ 0 → with_sign s n %ℤ pos 2 ≡ pos 0
with_sign-parity plus n h = ground (arith, h)
with_sign-parity minus zero h = refl
with_sign-parity minus (suc n) h = ground (arith, h)

pub abs_pos : (d : ℤ) → d ≢ pos 0 → 0 < abs d
abs_pos (pos zero) h = absurd (h refl)
abs_pos (pos (suc d)) h = omega arith
abs_pos (negsuc d) h = omega arith

-- How far the numerator is from a multiple of the denominator, by magnitudes.
error_lem :
    (nu de : ℤ) (q : ℕ)
    → abs (nu -ℤ with_sign (signed nu de) q *ℤ de) ≡ (abs nu - q * abs de) + (q * abs de - abs nu)
unfolding signed ◌-ℤ◌ ◌*ℤ◌
error_lem (pos n) (pos d) q = ground arith
error_lem (pos n) (negsuc d) q = ground arith
error_lem (negsuc n) (pos d) q = ground arith
error_lem (negsuc n) (negsuc d) q = ground arith

-- For a numerator in range and a denominator that is not 0 and at most 2 ^ 62 in absolute value,
-- other than the smallest fixnum by -1, `exact_round` is off by at most half the denominator, and
-- where it is off by exactly half the result is even.
pub exact_round-nearest :
    (nu de : ℤ)
    → de ≢ pos 0
    → IsInt nu
    → abs de ≤ 2 ^ 62
    → (nu ≡ int_min → de ≢ negsuc 0)
    → (abs (nu -ℤ exact_round nu de *ℤ de) * 2 ≤ abs de)
      × (abs (nu -ℤ exact_round nu de *ℤ de) * 2 ≡ abs de → exact_round nu de %ℤ pos 2 ≡ pos 0)
exact_round-nearest nu de h fits doubled small =
    let near = round_ℕ-nearest (abs nu) (abs de) (abs_pos de h) in
    rw (exact_round_lem nu de h, error_lem nu de (round_ℕ (abs nu) (abs de)))
      (
        omega (arith, near.0, near.1),
        λ tie.
            with_sign-parity (signed nu de) (round_ℕ (abs nu) (abs de)) (ground (arith, near, tie)),
      )
