-- ===== src/Format/Length.antt =====
-- The length of a packed string, and the number of arguments that a format takes.
use mathlib.Core.Option.{some-injective, none-ne-some}
use dummyscheme.Common.{
  none, some, zero, suc, [], ◌∷◌, false, ℕ, Bool, List, length, bind-some, ◌+◌, ◌≡◌, arith, ap,
  ◌++◌, length-append, All, ◌∙◌, sym, ◌≢◌, replicate, Option-cases, inl, length-replicate, inr,
  refl, ◌≤◌, ◌<◌, ◌^◌,
}
use dummyscheme.Format.{
  Field, integer, real, prefixed, terminated, chars, order, skip, align, each_field, gap,
}
use dummyscheme.Format.Pack.{
  Arg, int, float, pack_field, pack_next, string_pack, pack_value, pack_nextarg, Packer, packed,
}
use dummyscheme.Format.Size.{size_field, string_packsize}
use dummyscheme.Format.Fields.{run, fields_of, each_field-fields}
use dummyscheme.Format.Reals.{IsFloatWidth, Floats, length-packdouble}
use dummyscheme.Pack.{packint, checked_word}
use dummyscheme.Pack.Bytes.{length-put_word}

-- How many arguments a field takes.
abbrev pub takes : Field → ℕ
takes (order endian) = 0
takes skip = 0
takes (align op) = 0
takes field = 1

abbrev pub arity : List Field → ℕ
arity [] = 0
arity (field ∷ later) = takes field + arity later

-- The fields of one size for all arguments, of widths that the code can handle.
abbrev pub IsFixed : Field → Type 0
IsFixed (integer n sgn) = (1 ≤ n) × (n ≤ 8)
IsFixed (align op) = op < 2 ^ 31
IsFixed (real n) = IsFloatWidth n
IsFixed (prefixed n) = ⊥
IsFixed terminated = ⊥
IsFixed (chars n) = ⊥
IsFixed field = Unit

-- A `float` has 4 bytes and a `double` 8.
abbrev pub IsSized : Floats → Type 0
IsSized F = (n : ℕ) (f : F.Double) → IsFloatWidth n → length (F.to_bytes n f) ≡ n

module _ (F : Floats) where
  pack_nextarg-args :
      (args : List (Arg F)) (r : Arg F × List (Arg F))
      → pack_nextarg F args ≡ some r
      → length args ≡ suc (length r.1)
  unfolding pack_nextarg
  pack_nextarg-args [] r h = absurd (none-ne-some r h)
  pack_nextarg-args (v ∷ args) r h =
      ap (λ (t : Arg F × List (Arg F)). suc (length t.1)) (some-injective (v, args) r h)

  -- What a field that takes an argument does.
  pack_next-parts :
      (field : Field) (st after : Packer F)
      → pack_next F field st ≡ some after
      → (length st.args ≡ suc (length after.args))
        × ((v : Arg F) × (bytes : List ℕ) × (pack_value F field st.endian v ≡ some bytes)
            × (after.out ≡ st.out ++ bytes))
  unfolding pack_next
  pack_next-parts field st after h =
      let (r, got, h1) = bind-some (pack_nextarg F st.args) _ after h in
      let (bytes, value, h2) = bind-some (pack_value F field st.endian r.0) _ after h1 in
      let same = some-injective _ after h2 in
      (
        pack_nextarg-args st.args r got ∙ ap (λ (t : Packer F). suc (length t.args)) same,
        (r.0, bytes, value, sym (ap (λ (t : Packer F). t.out) same)),
      )

  pack_field-args :
      (field : Field) (st after : Packer F)
      → pack_field F field st ≡ some after
      → length st.args ≡ takes field + length after.args
  unfolding pack_field
  pack_field-args (order endian) st after h =
      omega (arith, ap (λ (t : Packer F). length t.args) (some-injective _ after h))
  pack_field-args skip st after h =
      omega (arith, ap (λ (t : Packer F). length t.args) (some-injective _ after h))
  pack_field-args (align op) st after h =
      omega (arith, ap (λ (t : Packer F). length t.args) (some-injective _ after h))
  pack_field-args (chars zero) st after h = absurd (none-ne-some after h)
  pack_field-args field st after h = omega (arith, (pack_next-parts field st after h).0)

  run-args :
      (fields : List Field) (st after : Packer F)
      → run (pack_field F) fields st ≡ some after
      → length st.args ≡ arity fields + length after.args
  unfolding run
  run-args [] st after h =
      omega (arith, ap (λ (t : Packer F). length t.args) (some-injective st after h))
  run-args (field ∷ later) st after h =
      let (mid, first, rest) = bind-some (pack_field F field st) _ after h in
      omega (arith, pack_field-args field st mid first, run-args later mid after rest)

  pack_value-size :
      (field : Field) (endian : Bool) (v : Arg F) (bytes : List ℕ)
      → IsSized F
      → IsFixed field
      → pack_value F field endian v ≡ some bytes
      → (size : ℕ) → size_field field size ≡ some (size + length bytes)
  unfolding pack_value size_field packint
  pack_value-size (integer n sgn) endian (int k) bytes sized fixed h size =
      let (u, checked, h1) = bind-some (checked_word k n sgn) _ bytes h in
      ap (λ t. some (size + t))
        (sym (length-put_word u n endian) ∙ ap length (some-injective _ bytes h1))
  pack_value-size (real n) endian (float f) bytes sized fixed h size =
      ap (λ t. some (size + t))
        (sym (length-packdouble F f n endian (sized n f fixed))
          ∙ ap length (some-injective _ bytes h))
  pack_value-size (real n) endian (int k) bytes sized fixed h size =
      ap (λ t. some (size + t))
        (sym (length-packdouble F (F.of_int k) n endian (sized n (F.of_int k) fixed))
          ∙ ap length (some-injective _ bytes h))
  pack_value-size (prefixed n) endian v bytes sized fixed h size = absurd fixed
  pack_value-size terminated endian v bytes sized fixed h size = absurd fixed
  pack_value-size (chars n) endian v bytes sized fixed h size = absurd fixed
  pack_value-size _ endian v bytes sized fixed h size = absurd (none-ne-some bytes h)

  pack_next-size :
      (field : Field) (st after : Packer F)
      → IsSized F
      → IsFixed field
      → pack_next F field st ≡ some after
      → size_field field (length st.out) ≡ some (length after.out)
  pack_next-size field st after sized fixed h =
      let (counted, (v, bytes, value, out)) = pack_next-parts field st after h in
      rw (out, length-append st.out bytes)
        (pack_value-size field st.endian v bytes sized fixed value (length st.out))

  pack_field-size :
      (field : Field) (st after : Packer F)
      → IsSized F
      → IsFixed field
      → pack_field F field st ≡ some after
      → size_field field (length st.out) ≡ some (length after.out)
  unfolding pack_field size_field
  pack_field-size (order endian) st after sized fixed h =
      ap (λ (t : Packer F). some (length t.out)) (some-injective _ after h)
  pack_field-size skip st after sized fixed h =
      rw (← length-append st.out (0 ∷ []))
        (ap (λ (t : Packer F). some (length t.out)) (some-injective _ after h))
  pack_field-size (align op) st after sized fixed h =
      ap some (
        sym (
          length-append st.out (replicate (gap op (length st.out)) 0)
          ∙ ap (λ t. length st.out + t) (length-replicate {A = ℕ} (gap op (length st.out)) 0)))
      ∙ ap (λ (t : Packer F). some (length t.out)) (some-injective _ after h)
  pack_field-size (chars n) st after sized fixed h = absurd fixed
  pack_field-size field st after sized fixed h = pack_next-size field st after sized fixed h

  run-size :
      (fields : List Field) (st after : Packer F)
      → IsSized F
      → All IsFixed fields
      → run (pack_field F) fields st ≡ some after
      → run size_field fields (length st.out) ≡ some (length after.out)
  unfolding run
  run-size [] st after sized fixed h =
      ap (λ (t : Packer F). some (length t.out)) (some-injective st after h)
  run-size (field ∷ later) st after sized fixed h =
      let (mid, first, rest) = bind-some (pack_field F field st) _ after h in
      rw (pack_field-size field st mid sized fixed.0 first)
        (run-size later mid after sized fixed.1 rest)

  packed-parts :
      (out : List ℕ) (args : List (Arg F)) (s : List ℕ)
      → packed F out args ≡ some s
      → (args ≡ []) × (out ≡ s)
  unfolding packed
  packed-parts out [] s h = (refl, some-injective out s h)
  packed-parts out (v ∷ args) s h = absurd (none-ne-some s h)

  -- What a call that gives a string went through.
  packed-run :
      (fmt : List ℕ) (args : List (Arg F)) (options : List Field) (s : List ℕ)
      → fields_of fmt ≡ some options
      → string_pack F fmt args ≡ some s
      → (st : Packer F) × (run
            (pack_field F)
            options
            (record { endian = false; out = []; args = args })
          ≡ some st)
        × (st.args ≡ [])
        × (st.out ≡ s)
  unfolding string_pack packed
  packed-run fmt args options s valid h =
      let (st, looped, h1) = bind-some (each_field (pack_field F) (length fmt) fmt _) _ s h in
      let (left, kept) = packed-parts st.out st.args s h1 in
      (
        st,
        sym (each_field-fields (pack_field F) (length fmt) fmt _ options valid) ∙ looped,
        left,
        kept,
      )

-- For a valid format without strings, with integers of 1 to 8 bytes and alignments below 2 ^ 31,
-- with 4 bytes to a `float` and 8 to a `double`, and a call of `string-pack` that succeeds with
-- fewer than 2 ^ 31 bytes, `string-packsize` gives the length of the packed string.
pub string_packsize-string_pack :
    (F : Floats) (fmt : List ℕ) (args : List (Arg F)) (options : List Field) (s : List ℕ)
    → IsSized F
    → fields_of fmt ≡ some options
    → All IsFixed options
    → string_pack F fmt args ≡ some s
    → length s < 2 ^ 31
    → string_packsize fmt ≡ some (length s)
unfolding string_packsize
string_packsize-string_pack F fmt args options s sized valid fixed h short =
    let (st, running, left, out) = packed-run F fmt args options s valid h in
    rw (each_field-fields size_field (length fmt) fmt 0 options valid, ← out)
      (run-size F options (record { endian = false; out = []; args = args }) st sized fixed running)

-- For a format with valid options, `string-pack` with fewer or more arguments than the options
-- take is an error.
pub string_pack-eq-none :
    (F : Floats) (fmt : List ℕ) (args : List (Arg F)) (options : List Field)
    → fields_of fmt ≡ some options
    → length args ≢ arity options
    → string_pack F fmt args ≡ none
string_pack-eq-none F fmt args options valid h = elim (Option-cases (string_pack F fmt args)) [
  | inl stops ↦ stops
  | inr (s, gives) ↦
      let (st, running, left, out) = packed-run F fmt args options s valid gives in
      absurd (
        h (
          run-args F options (record { endian = false; out = []; args = args }) st running
          ∙ omega (arith, ap length left)))
]
