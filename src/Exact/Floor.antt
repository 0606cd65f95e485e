-- ===== src/Exact/Floor.antt =====
-- `modulo` is the remainder of floor division: it has the sign of the divisor.
use mathlib.Core.Path.{subst₂}
use dummyscheme.Common.{
  some, zero, suc, ℕ, if◌then◌else◌, ◌≢◌, ◌≡◌, not, ◌*◌, ◌==◌, ◌+◌, ◌<◌, ◌&&◌, ◌-◌, arith, refl,
  false, ◌%◌, ◌/◌, true, Bool-cases, tests, inr, inl,
}
use dummyscheme.Common.Int.{pos, negsuc, ℤ, ◌*ℤ◌, ◌+ℤ◌, ◌≤ℤ◌, sub_ℕ, eq_of_parts}
use dummyscheme.Bignum.{plus, minus, Sign, same_sign, with_sign}
use dummyscheme.Exact.{fixnum_modulo, adjust_rem}
use dummyscheme.Fixnum.{differ, abs, eqb_ℤ, ◌%ℤ◌, int_min}
use native.Mathlib.Nat.{div-add-mod, mod-lt}
use dummyscheme.Fixnum.Round.{abs_pos}
use dummyscheme.Interns.Invariant.{both}

-- `r` is what is left of `a` after a multiple of `b`, smaller than `b` and of its sign.
pub record IsFloorRem (a b r : ℤ) : Type 0 where
  pub multiple : (k : ℤ) × (k *ℤ b +ℤ r ≡ a)
  pub smaller : abs r < abs b
  pub same_side : (pos 0 ≤ℤ b → pos 0 ≤ℤ r) × (b ≤ℤ pos 0 → r ≤ℤ pos 0)

-- The result on magnitudes: the remainder, or what the divisor has left above it.
unfoldable pub floor_result : Sign → Sign → ℕ → ℕ → ℤ
floor_result sa sb d r =
    if not (r == 0) && not (same_sign sa sb) then with_sign sb (d - r) else with_sign sb r

pub floor_result-IsFloorRem :
    (sa sb : Sign) (n d q r : ℕ)
    → q * d + r ≡ n
    → r < d
    → IsFloorRem (with_sign sa n) (with_sign sb d) (floor_result sa sb d r)
unfolding floor_result same_sign ◌*ℤ◌ ◌+ℤ◌
floor_result-IsFloorRem plus plus n d q r whole bound = record {
  multiple = (pos q, ground (arith, whole));
  smaller = ground arith;
  same_side = ground arith;
}
floor_result-IsFloorRem plus minus n d q zero whole bound = record {
  multiple = (sub_ℕ 0 q, ground (arith, whole));
  smaller = ground arith;
  same_side = ground arith;
}
floor_result-IsFloorRem plus minus n d q (suc r) whole bound = record {
  multiple = (negsuc q, ground (arith, whole));
  smaller = ground arith;
  same_side = ground arith;
}
floor_result-IsFloorRem minus plus n d q zero whole bound = record {
  multiple = (sub_ℕ 0 q, ground (arith, whole));
  smaller = ground arith;
  same_side = ground arith;
}
floor_result-IsFloorRem minus plus n d q (suc r) whole bound = record {
  multiple = (negsuc q, ground (arith, whole));
  smaller = ground arith;
  same_side = ground arith;
}
floor_result-IsFloorRem minus minus n d q r whole bound = record {
  multiple = (pos q, ground (arith, whole));
  smaller = ground arith;
  same_side = ground arith;
}

pub with_sign-zero : (s : Sign) (n : ℕ) → n ≡ 0 → pos n ≡ with_sign s n
with_sign-zero plus n h = refl
with_sign-zero minus n h = ground (arith, h)

sign_of : ℤ → Sign
sign_of (pos n) = plus
sign_of (negsuc n) = minus

sign_of-abs : (a : ℤ) → with_sign (sign_of a) (abs a) ≡ a
unfolding sign_of
sign_of-abs (pos n) = refl
sign_of-abs (negsuc n) = ground arith

adjust_rem_lem :
    (a b : ℤ)
    → b ≢ pos 0
    → adjust_rem b (a %ℤ b) ≡ floor_result (sign_of a) (sign_of b) (abs b) (abs a % abs b)
unfolding adjust_rem differ ◌+ℤ◌ floor_result sign_of same_sign
adjust_rem_lem (pos a) (pos b) h = ground arith
adjust_rem_lem (pos a) (negsuc b) h = ground (arith, mod-lt a {m = suc b})
adjust_rem_lem (negsuc a) (pos zero) h = absurd (h refl)
adjust_rem_lem (negsuc a) (pos (suc b)) h = ground (arith, mod-lt (suc a) {m = suc b})
adjust_rem_lem (negsuc a) (negsuc b) h = ground (arith, mod-lt (suc a) {m = suc b})

eqb_sound : (a b : ℤ) → eqb_ℤ a b ≡ true → a ≡ b
eqb_sound a b h = eq_of_parts a b (omega (tests, h))

in_range :
    (a b : ℤ) → (a ≡ int_min → b ≢ negsuc 0) → (eqb_ℤ a int_min && eqb_ℤ b (negsuc 0)) ≡ false
in_range a b h = elim (Bool-cases (eqb_ℤ a int_min && eqb_ℤ b (negsuc 0))) [
  | inr fits ↦ fits
  | inl traps ↦
      let (smallest, minus_one) = both (eqb_ℤ a int_min) (eqb_ℤ b (negsuc 0)) traps in
      absurd (h (eqb_sound a int_min smallest) (eqb_sound b (negsuc 0) minus_one))
]

-- Two fixnums, the divisor not 0 and the quotient in range.
pub fixnum_modulo_lem :
    (a b : ℤ)
    → b ≢ pos 0
    → (a ≡ int_min → b ≢ negsuc 0)
    → (r : ℤ) × (fixnum_modulo a b ≡ some r) × IsFloorRem a b r
unfolding fixnum_modulo
fixnum_modulo_lem a b h small =
    let divides : b ≢ pos 0 → eqb_ℤ b (pos 0) ≡ false = λ h. ground arith in
    let whole : abs a / abs b * abs b + abs a % abs b ≡ abs a =
      omega (arith, div-add-mod (abs a) (abs b)) in
    let found =
      floor_result-IsFloorRem (sign_of a) (sign_of b) (abs a) (abs b) (abs a / abs b)
        (abs a % abs b) whole (mod-lt (abs a) (abs_pos b h)) in
    (
      adjust_rem b (a %ℤ b),
      rw (divides h, in_range a b small),
      subst₂ (λ x y. IsFloorRem x y (adjust_rem b (a %ℤ b))) (sign_of-abs a) (sign_of-abs b)
          (rw (adjust_rem_lem a b h) found),
    )
