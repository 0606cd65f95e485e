-- ===== src/Format/Unpack.antt =====
-- scmstring.cpp: `string-unpack`.
use dummyscheme.Common.{
  none, some, zero, suc, [], ◌∷◌, true, false, ◌>>=◌, ◌>>◌, guard, ℕ, Bool, List, Option, leb,
  if◌then◌else◌, ◌+◌, length, take, ◌==◌, ltb, drop, ◌++◌, ◌-◌,
}
use dummyscheme.Format.{
  Field, order, skip, align, integer, real, prefixed, terminated, chars, gap, each_field,
}
use dummyscheme.Format.Reals.{Floats, loaddouble}
use dummyscheme.Format.Pack.{Arg, int, float, string}
use dummyscheme.Common.Int.{ℤ, pos, negsuc}
use dummyscheme.Pack.{unpackint, loaduint}
use dummyscheme.Bytevector.{int32}

-- `endian`, `off`, and the values read so far.
pub record Unpacker (F : Floats) : Type 0 where
  pub endian : Bool
  pub off : ℕ
  pub vals : List (Arg F)

-- The `n` bytes from `off` on, when they are there.
unfoldable pub bytes_at : List ℕ → ℕ → ℕ → Option (List ℕ)
bytes_at s off n = do guard (leb (off + n) (length s)); some (take n (drop off s))

-- `while (j < s->len && s->str[j] != 0)`: the bytes before the first 0; `none` when there is no 0.
unfoldable pub until_zero : List ℕ → Option (List ℕ)
until_zero [] = none
until_zero (b ∷ s) =
    let rest = until_zero s in if b == 0 then some [] else (do r ← rest; some (b ∷ r))

-- `(int)len`. A negative length, which passes the source's check, is an error here.
unfoldable pub prefix_length : ℕ → Option ℕ
prefix_length len = elim (int32 (pos len)) [ pos n ↦ some n | negsuc n ↦ none ]

-- `int pos` of the argument for it; a negative one counts from the end.
unfoldable pub start_at : List ℕ → Option ℤ → Option ℕ
start_at s none = some 0
start_at s (some k) = elim (int32 k) [
  | pos n ↦ (do guard (leb n (length s)); some n)
  | negsuc n ↦ (do guard (ltb n (length s)); some (length s - suc n))
]

module _ (F : Floats) (s : List ℕ) where
  -- The value at `off` and how many bytes it takes, for the fields that give one.
  unfoldable pub unpack_value : Field → Bool → ℕ → Option (Arg F × ℕ)
  unpack_value (integer n sgn) endian off = do
    bytes ← bytes_at s off n
    some (int (unpackint bytes n sgn endian), n)
  unpack_value (real n) endian off = do
    bytes ← bytes_at s off n
    some (float (loaddouble F bytes n endian), n)
  unpack_value (prefixed n) endian off = do
    bytes ← bytes_at s off n
    len ← prefix_length (loaduint bytes true)
    str ← bytes_at s (off + n) len
    some (string str, n + len)
  unpack_value terminated endian off = do
    str ← until_zero (drop off s)
    some (string str, length str + 1)
  unpack_value (chars zero) endian off = do
    guard (leb off (length s))
    some (string (take (length s - off) (drop off s)), length s - off)
  unpack_value (chars (suc n)) endian off = do
    str ← bytes_at s off (suc n)
    some (string str, suc n)
  unpack_value field endian off = none

  unfoldable pub unpack_next : Field → Unpacker F → Option (Unpacker F)
  unpack_next field st = do
    (v, n) ← unpack_value field st.endian st.off
    some (record { endian = st.endian; off = st.off + n; vals = st.vals ++ v ∷ [] })

  unfoldable pub unpack_field : Field → Unpacker F → Option (Unpacker F)
  unpack_field (order endian) st = some (record { endian = endian; off = st.off; vals = st.vals })
  unpack_field skip st = some (record { endian = st.endian; off = suc st.off; vals = st.vals })
  unpack_field (align op) st =
      some (record { endian = st.endian; off = st.off + gap op st.off; vals = st.vals })
  unpack_field field st = unpack_next field st

-- The values and the position after them.
unfoldable pub string_unpack : (F : Floats) → List ℕ → List ℕ → Option ℤ → Option (List (Arg F) × ℕ)
string_unpack F fmt s start = do
  off ← start_at s start
  st ←
      each_field (unpack_field F s) (length fmt) fmt
        (record { endian = false; off = off; vals = [] })
  some (st.vals, st.off)
