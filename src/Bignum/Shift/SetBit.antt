-- ===== src/Bignum/Shift/SetBit.antt =====
-- `numbigsetbitinline` adds a power of 2 to a number whose bits up to that one are clear.
use dummyscheme.Common.{
  ℕ, arith, [], List, ◌<◌, set, ◌<<<◌, word_mod, bit_or, ◌≡◌, ◌+◌, length, get_or, ◌^◌, ◌*◌, suc,
  ◌/◌, ◌∷◌, ◌%◌, ◌≤◌, ◌-◌, ◌∙◌, sym, ap, length-set, zero,
}
use dummyscheme.Bignum.{IsWords, value, NumBig, magnitude}
use dummyscheme.Bignum.Shift.{numbigsetbitinline}
use dummyscheme.Common.Powers.{two-pow_mono, two-pow-add, two-pow-pos, two-pow-suc}
use native.Mathlib.Nat.{
  le_of_mul-le-mul_left, zero-add, add-sub_of_le, lt_of_mul-lt-mul_left, mul-le-mul_left,
  mul-div_cancel_left,
}
use dummyscheme.Common.Bits.{bit_or_clear}

-- The limb at an index with one more bit set.
abbrev set_bit : List ℕ → ℕ → ℕ → List ℕ
set_bit xs i o = set xs i (bit_or (get_or xs i 0) (1 <<< o))

one_bit : (o : ℕ) → o < 64 → 1 <<< o ≡ 2 ^ o
one_bit o h = let small : 2 ^ o ≤ 2 ^ 63 = two-pow_mono o 63 (omega arith) in omega arith

below_top : (o : ℕ) → o < 64 → o + (63 - o) ≡ 63
below_top o h = omega arith

-- A word with a bit and those below clear, in a number that is a multiple of `2 ^ (o + 1)`.
clear_bit :
    (o x v m : ℕ)
    → o < 64
    → x < word_mod
    → x + word_mod * v ≡ 2 ^ suc o * m
    → (x / 2 ^ o % 2 ≡ 0) × (x + 2 ^ o < word_mod)
clear_bit o x v m ho hx h =
    let p = 2 ^ o in
    let r = 2 ^ (63 - o) in
    let split : p * r ≡ 2 ^ 63 =
      sym (two-pow-add o (63 - o)) ∙ ap (λ (t : ℕ). 2 ^ t) (below_top o ho) in
    let p_pos : 1 ≤ p = two-pow-pos o in
    let whole : x + 2 * p * (r * v) ≡ 2 * p * m =
      omega (arith, h, ap (λ (t : ℕ). t * v) split, ap (λ (t : ℕ). t * m) (two-pow-suc o)) in
    let rest : r * v ≤ m =
      le_of_mul-le-mul_left {m = r * v} {n = m} {k = 2 * p} (omega (arith, whole)) (omega arith) in
    let t = m - r * v in
    let parts : r * v + t ≡ m = add-sub_of_le rest in
    let multiple : x ≡ p * (2 * t) = omega (arith, whole, ap (λ (z : ℕ). p * z) parts) in
    let bound : t < r = lt_of_mul-lt-mul_left p {m = t} {n = r} (omega (arith, multiple, split)) in
    let room : p * suc t ≤ p * r = mul-le-mul_left p bound in
    let quotient : x / p ≡ 2 * t =
      ap (λ (z : ℕ). z / p) multiple ∙ mul-div_cancel_left (2 * t) p_pos in
    (omega (arith, quotient), omega (arith, multiple, room, split))

next : (i o : ℕ) → suc i * 64 + o ≡ 64 + (i * 64 + o)
next i o = omega arith

set_bit_lem :
    (i o m : ℕ) (xs : List ℕ)
    → o < 64
    → IsWords xs
    → i < length xs
    → value xs ≡ 2 ^ (i * 64 + suc o) * m
    → (value (set_bit xs i o) ≡ value xs + 2 ^ (i * 64 + o)) × IsWords (set_bit xs i o)
set_bit_lem i o m [] ho hx hi h = absurd (omega arith)
set_bit_lem zero o m (x ∷ xs) ho hx hi h =
    let clear =
      clear_bit o x (value xs) m ho hx.0 (h ∙ ap (λ (t : ℕ). 2 ^ t * m) (zero-add (suc o))) in
    let set : bit_or x (1 <<< o) ≡ x + 2 ^ o = rw (one_bit o ho) (bit_or_clear o x clear.0) in
    let weight : 2 ^ (0 * 64 + o) ≡ 2 ^ o = ap (λ (t : ℕ). 2 ^ t) (zero-add o) in
    (omega (arith, set, weight), (omega (arith, set, clear.1), hx.1))
set_bit_lem (suc i) o m (x ∷ xs) ho hx hi h =
    let up : 2 ^ (suc i * 64 + suc o) ≡ word_mod * 2 ^ (i * 64 + suc o) =
      ap (λ (t : ℕ). 2 ^ t) (next i (suc o)) ∙ two-pow-add 64 (i * 64 + suc o) in
    let above : x + word_mod * value xs ≡ word_mod * (2 ^ (i * 64 + suc o) * m) =
      omega (arith, h, ap (λ (t : ℕ). t * m) up) in
    let rest = set_bit_lem i o m xs ho hx.1 (omega arith) (omega (arith, hx.0, above)) in
    let weight : 2 ^ (suc i * 64 + o) ≡ word_mod * 2 ^ (i * 64 + o) =
      ap (λ (t : ℕ). 2 ^ t) (next i o) ∙ two-pow-add 64 (i * 64 + o) in
    (omega (arith, rest.0, weight), (hx.0, rest.1))

module _ (a : NumBig) (i m : ℕ) (words : IsWords a.limbs) (room : i / 64 < length a.limbs)
    (clear : magnitude a ≡ 2 ^ suc i * m) where
  split : value a.limbs ≡ 2 ^ (i / 64 * 64 + suc (i % 64)) * m
  split = clear ∙ ap (λ (t : ℕ). 2 ^ t * m) (omega arith)

  -- Where the bits of `a` up to `i` are clear, setting bit `i` adds `2 ^ i`.
  pub magnitude-numbigsetbitinline : magnitude (numbigsetbitinline a i) ≡ magnitude a + 2 ^ i
  unfolding numbigsetbitinline
  magnitude-numbigsetbitinline =
      (set_bit_lem (i / 64) (i % 64) m a.limbs (omega arith) words room split).0
      ∙ ap (λ (t : ℕ). magnitude a + 2 ^ t) (omega arith)

  pub numbigsetbitinline-IsWords : IsWords (numbigsetbitinline a i).limbs
  unfolding numbigsetbitinline
  numbigsetbitinline-IsWords =
      (set_bit_lem (i / 64) (i % 64) m a.limbs (omega arith) words room split).1

pub length-numbigsetbitinline :
    (a : NumBig) (i : ℕ) → length (numbigsetbitinline a i).limbs ≡ length a.limbs
unfolding numbigsetbitinline
length-numbigsetbitinline a i = length-set a.limbs (i / 64) _
