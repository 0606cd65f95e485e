-- ===== src/Pack/Integers.antt =====
-- Integers packed and unpacked, at each width, signedness and byte order.
use mathlib.Core.Path.{subst}
use dummyscheme.Common.{
  suc, true, false, ℕ, Bool, ◌≤◌, ◌<◌, ◌^◌, ◌≡◌, ◌*◌, arith, ◌-◌, word_mod, ap, ◌∙◌, if◌then◌else◌,
  some, List, none, length, ◌==◌, Bool-cases, inl, refl, inr, sym,
}
use dummyscheme.Common.Int.{pos, negsuc, ℤ, ◌-ℤ◌, ◌≤ℤ◌, neg_part, pos_part}
use dummyscheme.Pack.{
  signext, narrow_signed, checked_word, packint, unpackint, narrow_unsigned, put_word,
}
use dummyscheme.Common.Signed.{to_signed, to_word}
use native.Mathlib.Nat.{mod-eq_of_lt}
use dummyscheme.Fixnum.{abs, IsInt}
use dummyscheme.Common.Powers.{two-pow_mono, two-pow-pos}
use dummyscheme.Pack.Bytes.{length-put_word, loaduint-put_word}
use dummyscheme.Pack.Extend.{
  half_width, one_shifted, low_bits, signext-low, negative_bits, signext-high,
}

-- What fits `n` bytes.
abbrev pub InRange : ℤ → ℕ → Bool → Type 0
InRange val n true = (neg_part val ≤ 2 ^ (8 * n - 1)) × (pos_part val < 2 ^ (8 * n - 1))
InRange val n false = (pos 0 ≤ℤ val) × (abs val < 2 ^ (8 * n))

-- The word written for a value in range, read back.
Reads : ℤ → ℕ → Bool → ℕ → Type 0
Reads val n sgn u =
    (u < word_mod) × (u < 2 ^ (8 * n)) × ((if sgn then signext u n else to_signed u) ≡ val)

narrow_signed_lem :
    (val : ℤ) (n : ℕ)
    → 1 ≤ n
    → n < 8
    → InRange val n true
    → (u : ℕ) × (narrow_signed val n ≡ some u) × Reads val n true u
unfolding narrow_signed Reads ◌-ℤ◌
narrow_signed_lem (pos a) n l h r =
    let width = half_width n l h in
    let small = two-pow_mono (8 * n) 56 (omega arith) in
    let low = low_bits n l h a ∙ mod-eq_of_lt (omega (arith, r, width)) in
    (
      a,
      ground (arith, low, r),
      (
        omega (arith, r, width, small),
        omega (arith, r, width),
        signext-low n l h a (omega (arith, r)),
      ),
    )
narrow_signed_lem (negsuc a) n l h r =
    let width = half_width n l h in
    let small = two-pow_mono (8 * n) 56 (omega arith) in
    let below : a < 2 ^ (8 * n - 1) = omega (arith, r) in
    let low = low_bits n l h (word_mod - suc a) ∙ negative_bits n l h a below in
    (
      2 ^ (8 * n) - suc a,
      ground (arith, low, r, two-pow-pos (8 * n - 1)),
      (
        omega (arith, small),
        omega (arith, two-pow-pos (8 * n)),
        signext-high n l h (2 ^ (8 * n) - suc a) (omega (arith, width, below))
              (omega (arith, two-pow-pos (8 * n)))
            ∙ ap negsuc (omega (arith, width, below)),
      ),
    )

narrow_unsigned_lem :
    (a n : ℕ)
    → 1 ≤ n
    → n < 8
    → InRange (pos a) n false
    → (narrow_unsigned (pos a) n ≡ some a) × Reads (pos a) n false a
unfolding narrow_unsigned Reads
narrow_unsigned_lem a n l h r =
    let small = two-pow_mono (8 * n) 56 (omega arith) in
    (
      ground (arith, one_shifted (8 * n) (omega arith), r),
      (omega (arith, r, small), omega (arith, r), ground (arith, r, small)),
    )

widest :
    (val : ℤ) (sgn : Bool)
    → IsInt val
    → InRange val 8 sgn
    → (checked_word val 8 sgn ≡ some (to_word val)) × Reads val 8 sgn (to_word val)
unfolding checked_word Reads signext
widest (pos a) true v r = (refl, (ground arith, ground arith, ground arith))
widest (negsuc a) true v r = (refl, (ground arith, ground arith, ground arith))
widest (pos a) false v r = (ground arith, (ground arith, ground arith, ground arith))
widest (negsuc a) false v r = absurd (omega (arith, r))

checked_word_lem :
    (val : ℤ) (n : ℕ) (sgn : Bool)
    → 1 ≤ n
    → n < 8
    → InRange val n sgn
    → (u : ℕ) × (checked_word val n sgn ≡ some u) × Reads val n sgn u
unfolding checked_word
checked_word_lem val n true l h r =
    let other : (n == 8) ≡ false = ground arith in
    let (u, run, reads) = narrow_signed_lem val n l h r in (u, rw other run, reads)
checked_word_lem (pos a) n false l h r =
    let other : (n == 8) ≡ false = ground arith in
    let (run, reads) = narrow_unsigned_lem a n l h r in (a, ground (arith, other, run), reads)
checked_word_lem (negsuc a) n false l h r = absurd (omega (arith, r))

written :
    (val : ℤ) (n : ℕ) (sgn : Bool)
    → 1 ≤ n
    → n ≤ 8
    → IsInt val
    → InRange val n sgn
    → (u : ℕ) × (checked_word val n sgn ≡ some u) × Reads val n sgn u
written val n sgn l h v r = elim (Bool-cases (n == 8)) [
  | inl wide ↦
      let e : 8 ≡ n = ground (arith, wide) in
      subst
        (λ m. InRange val m sgn → (u : ℕ) × (checked_word val m sgn ≡ some u) × Reads val m sgn u) e
        (λ r. let (run, reads) = widest val sgn v r in (to_word val, run, reads)) r
  | inr narrow ↦ checked_word_lem val n sgn l (ground (arith, narrow)) r
]

-- For a width of 1 to 8 bytes, a fixnum in the range of that width and signedness is packed
-- without error into as many bytes as the width, and unpacking them with the same width,
-- signedness and byte order gives the fixnum.
pub packint-unpackint :
    (val : ℤ) (n : ℕ) (sgn endian : Bool)
    → 1 ≤ n
    → n ≤ 8
    → IsInt val
    → InRange val n sgn
    → (bytes : List ℕ) × (packint val n sgn endian ≡ some bytes)
      × (length bytes ≡ n)
      × (unpackint bytes n sgn endian ≡ val)
unfolding packint unpackint Reads
packint-unpackint val n sgn endian l h v r =
    let (u, run, reads) = written val n sgn l h v r in
    (
      put_word u n endian,
      rw run,
      length-put_word u n endian,
      rw (loaduint-put_word u n endian reads.0 reads.1) reads.2,
    )

wide_InRange : (val : ℤ) → IsInt val → InRange val 8 true
wide_InRange (pos a) v = (omega arith, omega (arith, v))
wide_InRange (negsuc a) v = (omega (arith, v), omega arith)

-- For a width of 1 to 8 bytes, packing a fixnum that is out of the range of that width and
-- signedness is an error.
packint-eq-none :
    (val : ℤ) (n : ℕ) (sgn endian : Bool)
    → 1 ≤ n
    → n ≤ 8
    → IsInt val
    → ¬ InRange val n sgn
    → packint val n sgn endian ≡ none
unfolding packint checked_word narrow_signed narrow_unsigned ◌-ℤ◌
packint-eq-none val n true endian l h v r = elim (Bool-cases (n == 8)) [
  | inl wide ↦
      let e : 8 ≡ n = ground (arith, wide) in
      absurd (subst (λ m. ¬ InRange val m true) (sym e) r (wide_InRange val v))
  | inr narrow ↦ ground (arith, narrow, r, two-pow-pos (8 * n - 1))
]
packint-eq-none (negsuc a) n false endian l h v r = ground arith
packint-eq-none (pos a) n false endian l h v r = elim (Bool-cases (n == 8)) [
  | inl wide ↦
      let e : 8 ≡ n = ground (arith, wide) in
      absurd (subst (λ m. ¬ InRange (pos a) m false) (sym e) r (omega arith, omega (arith, v)))
  | inr narrow ↦ ground (arith, narrow, r, one_shifted (8 * n))
]
