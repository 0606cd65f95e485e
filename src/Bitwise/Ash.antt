-- ===== src/Bitwise/Ash.antt =====
-- `bitop_ash` to the right is floor division by a power of two.
use dummyscheme.Common.{
  zero, suc, ℕ, ◌/◌, ◌*◌, ◌≡◌, word_mod, ◌^◌, ◌<◌, ◌-◌, ◌≤◌, sym, ◌<<<◌, bit_or, arith, ◌∙◌, ◌+◌,
  ap, Bool-cases, leb, inl, inr,
}
use dummyscheme.Common.Int.{ℤ, pos, negsuc}
use dummyscheme.Bitwise.{bitop_ash, shift_down}
use dummyscheme.Fixnum.{IsInt}
use native.Mathlib.Nat.{
  div-add-mod, mod-lt, mul-le-mul_right, mod-eq_of_lt, div-eq_of_lt-le, div-eq_of_lt,
  div-lt_iff_lt-mul,
}
use dummyscheme.Common.Powers.{two-pow-add, two-pow_mono, two-pow-pos}
use dummyscheme.Common.Signed.{complement}
use dummyscheme.Common.Bits.{disjoint_bit_or}

-- Division rounding down.
abbrev pub floor_div : ℤ → ℕ → ℤ
floor_div (pos a) d = pos (a / d)
floor_div (negsuc a) d = negsuc (a / d)

quotient_lt : (a c d : ℕ) → 0 < d → c * d ≡ word_mod → a < 2 ^ 63 → a / d < c
quotient_lt a c d p e h = (div-lt_iff_lt-mul p).1 (omega (arith, e, h))

-- A negative word shifted without its sign.
shifted_word :
    (a c d : ℕ) → 0 < d → c * d ≡ word_mod → a < 2 ^ 63 → (word_mod - suc a) / d ≡ c - 1 - a / d
shifted_word a c d p e h =
    let parts = div-add-mod a d in
    let small = mod-lt a p in
    let room : ¬ (c ≤ a / d) = λ le. absurd (omega (arith, mul-le-mul_right d le, parts, e, h)) in
    let k = c - 1 - a / d in
    let split : k + 1 + a / d ≡ c = omega (arith, room) in
    let scaled = ap (λ (t : ℕ). t * d) split in
    div-eq_of_lt-le d (omega (arith, scaled, e, parts, small))
      (omega (arith, scaled, e, parts, small))

-- `1 << (64 - c)` does not overflow, and it is what `2 ^ c` leaves of the word.
pub word_split : (c : ℕ) → c ≤ 64 → 2 ^ (64 - c) * 2 ^ c ≡ word_mod
word_split c h = sym (two-pow-add (64 - c) c) ∙ ap (λ (t : ℕ). 2 ^ t) {y = 64} (omega arith)

pub mask : (c : ℕ) → 1 ≤ c → 1 <<< (64 - c) ≡ 2 ^ (64 - c)
mask c h = omega (
  arith,
  mod-eq_of_lt {n = 2 ^ (64 - c)} {m = word_mod}
      (omega (arith, two-pow_mono (64 - c) 63 (omega arith))),
)

pub pred_mul : (m d w : ℕ) → 1 ≤ m → m * d ≡ w → (m - 1) * d ≡ w - d
pred_mul zero d w h e = absurd (omega arith)
pred_mul (suc m) d w h e =
    let one_less : suc m - 1 ≡ m = omega arith in rw one_less (omega (arith, e))

-- The bits from `64 - c` on are set.
pub sign_extend :
    (c r : ℕ)
    → 1 ≤ c
    → c ≤ 64
    → r < 2 ^ (64 - c)
    → bit_or r (complement ((1 <<< (64 - c)) - 1)) ≡ word_mod - 2 ^ (64 - c) + r
sign_extend c r h l s =
    let split = word_split c l in
    let factor : complement (2 ^ (64 - c) - 1) ≡ (2 ^ c - 1) * 2 ^ (64 - c) = omega (
      arith,
      pred_mul (2 ^ c) (2 ^ (64 - c)) word_mod (two-pow-pos c) (omega (arith, split)),
      two-pow-pos (64 - c),
      two-pow_mono (64 - c) 64 (omega arith),
    ) in
    rw (mask c h, factor, disjoint_bit_or (64 - c) (2 ^ c - 1) r s)
      (omega
        (arith, pred_mul (2 ^ c) (2 ^ (64 - c)) word_mod (two-pow-pos c) (omega (arith, split))))

small_div : (a y : ℕ) → a < 2 ^ 63 → 64 ≤ suc y → a / 2 ^ suc y ≡ 0
small_div a y h l = div-eq_of_lt (omega (arith, two-pow_mono 64 (suc y) l))

div-le : (a y : ℕ) → a / 2 ^ suc y ≤ a
div-le a y =
    omega (arith, div-add-mod a (2 ^ suc y), mul-le-mul_right (a / 2 ^ suc y) (two-pow-pos (suc y)))

-- A right shift of a fixnum in range by any count of at least 1 is division by that power of two,
-- rounding down.
bitop_ash-floor_div : (x : ℤ) (y : ℕ) → IsInt x → bitop_ash x (negsuc y) ≡ floor_div x (2 ^ suc y)
unfolding bitop_ash shift_down
bitop_ash-floor_div (pos a) y h = elim (Bool-cases (leb 64 (suc y))) [
  | inl far ↦ ground (arith, far, small_div a y)
  | inr near ↦ ground (arith, near, div-le a y)
]
bitop_ash-floor_div (negsuc a) y h = elim (Bool-cases (leb 64 (suc y))) [
  | inl far ↦ ground (arith, far, small_div a y)
  | inr near ↦
      let within : suc y ≤ 64 = ground (arith, near) in
      let c = 2 ^ (64 - suc y) in
      let split = word_split (suc y) within in
      let shifted = shifted_word a c (2 ^ suc y) (two-pow-pos (suc y)) split (omega (arith, h)) in
      let below : a / 2 ^ suc y < c =
        quotient_lt a c (2 ^ suc y) (two-pow-pos (suc y)) split (omega (arith, h)) in
      let extended =
        sign_extend (suc y) (c - 1 - a / 2 ^ suc y) (omega arith) within (omega (arith, below)) in
      ground (
        arith,
        near,
        ap (λ u. bit_or u (complement ((1 <<< (64 - suc y)) - 1))) shifted,
        extended,
        below,
        two-pow_mono (64 - suc y) 63 (omega arith),
      )
]
