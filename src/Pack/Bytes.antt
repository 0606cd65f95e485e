-- ===== src/Pack/Bytes.antt =====
-- A word put into bytes is loaded back from them.
use dummyscheme.Common.{
  zero, suc, ℕ, ◌^◌, ◌<◌, ◌*◌, word_mod, Bool, ◌≡◌, bit_or, ◌/◌, ◌+◌, ap, ◌<<<◌, arith, true, ◌∙◌,
  false, sym, ◌≤◌, length, refl,
}
use dummyscheme.Pack.{load_up, load_down, loaduint, put_down, put_up, put_word, byte_of}
use dummyscheme.Common.Powers.{two-pow-add, two-pow-pos}
use native.Mathlib.Nat.{div-div-eq-div-mul, div-add-mod, div-eq_of_lt, mul-le-mul_right}
use dummyscheme.Common.Bits.{bit_or_disjoint}

pow_256 : (k : ℕ) → 2 ^ (8 * suc k) ≡ 2 ^ (8 * k) * 256
pow_256 k = ap (λ (t : ℕ). 2 ^ t) {y = 8 * k + 8} (omega arith) ∙ two-pow-add (8 * k) 8

-- One round of either loop.
join_byte :
    (u k : ℕ) → u < word_mod → bit_or ((u / 2 ^ (8 * suc k)) <<< 8) (byte_of u k) ≡ u / 2 ^ (8 * k)
join_byte u k h =
    let high : u / 2 ^ (8 * suc k) ≡ u / 2 ^ (8 * k) / 256 =
      ap (λ t. u / t) (pow_256 k) ∙ sym (div-div-eq-div-mul u (2 ^ (8 * k)) 256) in
    let small : u / 2 ^ (8 * k) ≤ u = omega (
      arith,
      div-add-mod u (2 ^ (8 * k)),
      mul-le-mul_right (u / 2 ^ (8 * k)) (two-pow-pos (8 * k)),
    ) in
    let plain : (u / 2 ^ (8 * k) / 256) <<< 8 ≡ u / 2 ^ (8 * k) / 256 * 2 ^ 8 =
      omega (arith, small, h) in
    rw (high, plain, bit_or_disjoint 8 (u / 2 ^ (8 * k) / 256) (byte_of u k) (omega arith))
      (omega arith)

load_up-put_down : (u n : ℕ) → u < word_mod → load_up (put_down u n) (u / 2 ^ (8 * n)) ≡ u
unfolding load_up put_down
load_up-put_down u zero h = omega arith
load_up-put_down u (suc n) h = rw (load_up, join_byte u n h) (load_up-put_down u n h)

load_down-put_up :
    (u k n : ℕ) → u < word_mod → u < 2 ^ (8 * (k + n)) → load_down (put_up u k n) ≡ u / 2 ^ (8 * k)
unfolding load_down put_up
load_down-put_up u k zero h l = sym (div-eq_of_lt (rw (← step) l))
  where
    step : k + 0 ≡ k
    step = omega arith
load_down-put_up u k (suc n) h l =
    let next : k + suc n ≡ suc k + n = omega arith in
    rw (load_down-put_up u (suc k) n h (rw (← next) l)) (join_byte u k h)

-- A word that fits the width, put into bytes in either byte order, is loaded back from them.
pub loaduint-put_word :
    (u n : ℕ) (endian : Bool)
    → u < word_mod
    → u < 2 ^ (8 * n)
    → loaduint (put_word u n endian) endian ≡ u
unfolding loaduint put_word
loaduint-put_word u n true h l =
    ap (load_up (put_down u n)) (sym (div-eq_of_lt l)) ∙ load_up-put_down u n h
loaduint-put_word u n false h l =
    let whole : 0 + n ≡ n = omega arith in load_down-put_up u 0 n h (rw whole l) ∙ omega arith

length-put_down : (u n : ℕ) → length (put_down u n) ≡ n
unfolding put_down
length-put_down u zero = refl
length-put_down u (suc n) = ap suc (length-put_down u n)

length-put_up : (u k n : ℕ) → length (put_up u k n) ≡ n
unfolding put_up
length-put_up u k zero = refl
length-put_up u k (suc n) = ap suc (length-put_up u (suc k) n)

pub length-put_word : (u n : ℕ) (endian : Bool) → length (put_word u n endian) ≡ n
unfolding put_word
length-put_word u n true = length-put_down u n
length-put_word u n false = length-put_up u 0 n
