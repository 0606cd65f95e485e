-- ===== src/Format/Values.antt =====
-- One value packed and unpacked at its place in a string.
use mathlib.Core.List.{append_assoc}
use dummyscheme.Common.{
  some, zero, suc, [], ◌∷◌, true, false, ℕ, Bool, List, length, ◌≤◌, ◌≡◌, All, ◌<◌, ◌++◌, ◌^◌, ◌*◌,
  drop, arith, leb, ◌+◌, ap, take-append, drop-append, ◌==◌, sym, refl, length-append, word_mod,
  ◌∙◌, take-of-length-le,
}
use dummyscheme.Format.{Field, integer, real, prefixed, terminated, chars}
use dummyscheme.Format.Pack.{Arg, int, float, string, pack_value}
use dummyscheme.Format.Unpack.{unpack_value, bytes_at, until_zero, prefix_length}
use dummyscheme.Format.Reals.{
  Floats, IsFloatWidth, packdouble, length-packdouble, loaddouble-packdouble,
}
use dummyscheme.Pack.Integers.{InRange, packint-unpackint}
use dummyscheme.Pack.Bytes.{loaduint-put_word, length-put_word}
use dummyscheme.Fixnum.{IsInt}
use dummyscheme.Common.Int.{ℤ}
use dummyscheme.Pack.{put_word, put_down}

-- What a field takes without loss: an integer in its range, a real whose bytes give it back, a
-- string whose length fits its prefix, that has no 0, or that has the length of the field.
abbrev pub Fits : (F : Floats) → Field → Arg F → Type 0
Fits F (integer n sgn) (int k) = (1 ≤ n) × (n ≤ 8) × IsInt k × InRange k n sgn
Fits F (real n) (float f) =
    IsFloatWidth n × (length (F.to_bytes n f) ≡ n) × (F.of_bytes n (F.to_bytes n f) ≡ f)
Fits F (prefixed n) (string s) = (1 ≤ n) × (n ≤ 8) × (length s < 2 ^ 31) × (length s < 2 ^ (8 * n))
Fits F terminated (string s) = All (λ b. 1 ≤ b) s
Fits F (chars n) (string s) = (1 ≤ n) × (length s ≡ n)
Fits F _ _ = ⊥

pub bytes_at-middle :
    (before bytes after s : List ℕ) (off n : ℕ)
    → s ≡ before ++ bytes ++ after
    → off ≡ length before
    → n ≡ length bytes
    → bytes_at s off n ≡ some bytes
unfolding bytes_at
bytes_at-middle before bytes after s off n whole place width =
    let rest : drop off s ≡ bytes ++ after =
      rw (whole, place, append_assoc before bytes after) (drop-append before (bytes ++ after)) in
    let enough : leb (off + n) (length s) ≡ true = ground (
      arith,
      ap length whole,
      length-append (before ++ bytes) after,
      length-append before bytes,
      place,
      width,
    ) in
    rw (enough, rest, width) (ap some (take-append bytes after))

until_zero-append : (s after : List ℕ) → All (λ b. 1 ≤ b) s → until_zero (s ++ (0 ∷ after)) ≡ some s
unfolding until_zero
until_zero-append [] after h = refl
until_zero-append (b ∷ s) after h =
    let other : (b == 0) ≡ false = ground (arith, h) in
    rw (other, until_zero-append s after (h.1)) refl

prefix_length-small : (len : ℕ) → len < 2 ^ 31 → prefix_length len ≡ some len
unfolding prefix_length
prefix_length-small len h = ground arith

-- A value packed is unpacked where it stands.
abbrev pub Passes : (F : Floats) → Field → Bool → Arg F → List ℕ → Type 0
Passes F field endian v before =
    (bytes : List ℕ) × (pack_value F field endian v ≡ some bytes)
    × ((after s : List ℕ)
        → s ≡ before ++ bytes ++ after
        → unpack_value F s field endian (length before) ≡ some (v, length bytes))

module _ (F : Floats) (endian : Bool) (before : List ℕ) where
  integer-Passes :
      (n : ℕ) (sgn : Bool) (k : ℤ)
      → Fits F (integer n sgn) (int k)
      → Passes F (integer n sgn) endian (int k) before
  unfolding pack_value unpack_value
  integer-Passes n sgn k h =
      let (bytes, run, size, back) = packint-unpackint k n sgn endian h.0 h.1 h.2 h.3 in
      (
        bytes,
        run,
        λ after s whole.
            rw
              (
                bytes_at-middle before bytes after s (length before) n whole refl (sym size),
                back,
                size,
              )
              refl,
      )

  real-Passes :
      (n : ℕ) (f : F.Double) → Fits F (real n) (float f) → Passes F (real n) endian (float f) before
  unfolding pack_value unpack_value
  real-Passes n f h =
      let size = length-packdouble F f n endian h.1 in
      (
        packdouble F f n endian,
        refl,
        λ after s whole.
            rw
              (
                bytes_at-middle before (packdouble F f n endian) after s (length before) n whole
                    refl (sym size),
                loaddouble-packdouble F f n endian h.0 h.1 h.2,
                size,
              )
              refl,
      )

  prefixed-Passes :
      (n : ℕ) (str : List ℕ)
      → Fits F (prefixed n) (string str)
      → Passes F (prefixed n) endian (string str) before
  unfolding pack_value unpack_value put_word
  prefixed-Passes n str h =
      let size = length-put_word (length str) n true in
      let small : length str < word_mod = omega (arith, h.2) in
      let back = loaduint-put_word (length str) n true small h.3 in
      (
        put_down (length str) n ++ str,
        refl,
        λ after s whole.
            let second : s ≡ before ++ put_down (length str) n ++ str ++ after =
              whole
              ∙ ap (λ t. t ++ after) (sym (append_assoc before (put_down (length str) n) str)) in
            let first : s ≡ before ++ put_down (length str) n ++ (str ++ after) =
              second ∙ append_assoc (before ++ put_down (length str) n) str after in
            let place : length before + n ≡ length (before ++ put_down (length str) n) =
              omega (arith, size, length-append before (put_down (length str) n)) in
            rw
              (
                bytes_at-middle before (put_down (length str) n) (str ++ after) s (length before) n
                    first refl (sym size),
                back,
                prefix_length-small (length str) h.2,
                bytes_at-middle (before ++ put_down (length str) n) str after s (length before + n)
                    (length str) second place refl,
              )
              (ap (λ t. some (string str, t))
                (omega (arith, size, length-append (put_down (length str) n) str))),
      )

  terminated-Passes :
      (str : List ℕ)
      → Fits F terminated (string str)
      → Passes F terminated endian (string str) before
  unfolding pack_value unpack_value
  terminated-Passes str h = (
    str ++ 0 ∷ [],
    refl,
    λ after s whole.
        let rest : drop (length before) s ≡ str ++ (0 ∷ after) =
          rw (whole, append_assoc before (str ++ 0 ∷ []) after, drop-append before)
            (append_assoc str (0 ∷ []) after) in
        rw (rest, until_zero-append str after h, length-append str (0 ∷ [])) refl,
  )

  chars-Passes :
      (n : ℕ) (str : List ℕ)
      → Fits F (chars n) (string str)
      → Passes F (chars n) endian (string str) before
  unfolding pack_value unpack_value
  chars-Passes zero str h = absurd (omega (arith, h.0))
  chars-Passes (suc n) str h =
      let chars_enough : leb (suc n) (length str) ≡ true = ground (arith, h.1) in
      (
        str,
        rw chars_enough (ap some (take-of-length-le (suc n) str (omega (arith, h.1)))),
        λ after s whole.
            rw
              (
                bytes_at-middle before str after s (length before) (suc n) whole refl (sym (h.1)),
                h.1,
              )
              refl,
      )

  -- Every field that takes an argument.
  pub value-Passes : (field : Field) (v : Arg F) → Fits F field v → Passes F field endian v before
  value-Passes (integer n sgn) (int k) h = integer-Passes n sgn k h
  value-Passes (real n) (float f) h = real-Passes n f h
  value-Passes (prefixed n) (string str) h = prefixed-Passes n str h
  value-Passes terminated (string str) h = terminated-Passes str h
  value-Passes (chars n) (string str) h = chars-Passes n str h
  value-Passes _ _ h = absurd h
