-- ===== src/Pack/Extend.antt =====
-- Sign extension from a width below 8 bytes, and the low bits of a word.
use mathlib.Core.Path.{subst}
use dummyscheme.Common.{
  suc, ℕ, ◌≤◌, ◌<◌, ◌<<<◌, ◌^◌, ◌≡◌, ◌*◌, bit_or, arith, ◌-◌, word_mod, ap, ◌+◌, ◌∙◌, ◌/◌, bit_and,
  ◌%◌,
}
use dummyscheme.Common.Int.{pos, negsuc}
use dummyscheme.Pack.{signext}
use dummyscheme.Common.Signed.{complement}
use native.Mathlib.Nat.{mod-eq_of_lt, div-eq_of_lt-le, div-eq_of_lt, add-mul-mod_self_right}
use dummyscheme.Common.Powers.{two-pow_mono, two-pow-suc, two-pow-pos}
use dummyscheme.Bitwise.Ash.{sign_extend, word_split, pred_mul}
use dummyscheme.Common.Bits.{bit_and_bit, bit_and_mask}

-- All bits from `m` on are set.
extend_from :
    (m r : ℕ) → m ≤ 63 → r < 2 ^ m → bit_or r (complement ((1 <<< m) - 1)) ≡ word_mod - 2 ^ m + r
extend_from m r h l =
    let back : 64 - (64 - m) ≡ m = omega arith in
    let found = sign_extend (64 - m) r (omega arith) (omega arith) (rw back l) in
    subst (λ t. bit_or r (complement ((1 <<< t) - 1)) ≡ word_mod - 2 ^ t + r) back found

pub one_shifted : (m : ℕ) → m ≤ 63 → 1 <<< m ≡ 2 ^ m
one_shifted m h =
    omega (arith, mod-eq_of_lt {n = 2 ^ m} {m = word_mod} (omega (arith, two-pow_mono m 63 h)))

module _ (n : ℕ) (at_least : 1 ≤ n) (narrow : n < 8) where
  pub half_width : 2 ^ (8 * n) ≡ 2 * 2 ^ (8 * n - 1)
  half_width = ap (λ (t : ℕ). 2 ^ t) {y = suc (8 * n - 1)} (omega arith) ∙ two-pow-suc (8 * n - 1)

  top_bit : (u : ℕ) → 2 ^ (8 * n - 1) ≤ u → u < 2 ^ (8 * n) → u / 2 ^ (8 * n - 1) ≡ 1
  top_bit u h l = div-eq_of_lt-le (2 ^ (8 * n - 1)) (omega arith) (omega (arith, half_width))

  pub signext-low : (u : ℕ) → u < 2 ^ (8 * n - 1) → signext u n ≡ pos u
  unfolding signext
  signext-low u h = ground (
    arith,
    one_shifted (8 * n - 1) (omega arith),
    bit_and_bit (8 * n - 1) u,
    div-eq_of_lt h,
    two-pow_mono (8 * n - 1) 63 (omega arith),
  )

  pub signext-high :
      (u : ℕ) → 2 ^ (8 * n - 1) ≤ u → u < 2 ^ (8 * n) → signext u n ≡ negsuc (2 ^ (8 * n) - 1 - u)
  unfolding signext
  signext-high u h l = ground (
    arith,
    one_shifted (8 * n - 1) (omega arith),
    bit_and_bit (8 * n - 1) u,
    top_bit u h l,
    extend_from (8 * n) u (omega arith) l,
    two-pow_mono (8 * n) 56 (omega arith),
    two-pow-pos (8 * n - 1),
  )

  pub low_bits : (a : ℕ) → bit_and a ((1 <<< (8 * n)) - 1) ≡ a % 2 ^ (8 * n)
  low_bits a =
      ap (λ t. bit_and a (t - 1)) (one_shifted (8 * n) (omega arith)) ∙ bit_and_mask (8 * n) a

  pub negative_bits :
      (a : ℕ) → a < 2 ^ (8 * n - 1) → (word_mod - suc a) % 2 ^ (8 * n) ≡ 2 ^ (8 * n) - suc a
  negative_bits a h =
      let split = word_split (8 * n) (omega arith) in
      let fewer =
        pred_mul (2 ^ (64 - 8 * n)) (2 ^ (8 * n)) word_mod (two-pow-pos (64 - 8 * n)) split in
      let sum : word_mod - suc a ≡ 2 ^ (8 * n) - suc a + (2 ^ (64 - 8 * n) - 1) * 2 ^ (8 * n) =
        omega (arith, fewer, half_width, two-pow_mono (8 * n) 56 (omega arith)) in
      rw (sum, add-mul-mod_self_right) (mod-eq_of_lt (omega (arith, half_width)))
