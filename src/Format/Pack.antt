-- ===== src/Format/Pack.antt =====
-- scmstring.cpp: `string-pack`.
use dummyscheme.Common.{
  none, some, zero, [], ◌∷◌, false, ◌>>=◌, ◌>>◌, guard, ℕ, Bool, List, Option, length, ◌++◌, leb,
  replicate, take,
}
use dummyscheme.Format.{
  Field, order, skip, align, integer, real, prefixed, terminated, chars, gap, each_field,
}
use dummyscheme.Format.Reals.{Floats, packdouble}
use dummyscheme.Common.Int.{ℤ}
use dummyscheme.Pack.{packint, put_down}

-- The arguments, by the types that the fields tell apart.
pub data Arg (F : Floats) : Type 0 where
  int : ℤ → Arg F
  float : F.Double → Arg F
  string : List ℕ → Arg F
  other : Arg F

-- `endian`, what `out` holds, and the arguments left.
pub record Packer (F : Floats) : Type 0 where
  pub endian : Bool
  pub out : List ℕ
  pub args : List (Arg F)

module _ (F : Floats) where
  unfoldable pub pack_nextarg : List (Arg F) → Option (Arg F × List (Arg F))
  pack_nextarg [] = none
  pack_nextarg (v ∷ args) = some (v, args)

  -- The bytes of one argument, for the fields that take one.
  unfoldable pub pack_value : Field → Bool → Arg F → Option (List ℕ)
  pack_value (integer n sgn) endian (int k) = packint k n sgn endian
  pack_value (real n) endian (float f) = some (packdouble F f n endian)
  pack_value (real n) endian (int k) = some (packdouble F (F.of_int k) n endian)
  pack_value (prefixed n) endian (string s) = some (put_down (length s) n ++ s)
  pack_value terminated endian (string s) = some (s ++ 0 ∷ [])
  pack_value (chars n) endian (string s) = do guard (leb n (length s)); some (take n s)
  pack_value field endian v = none

  unfoldable pub pack_next : Field → Packer F → Option (Packer F)
  pack_next field st = do
    (v, args) ← pack_nextarg st.args
    bytes ← pack_value field st.endian v
    some (record { endian = st.endian; out = st.out ++ bytes; args = args })

  unfoldable pub pack_field : Field → Packer F → Option (Packer F)
  pack_field (order endian) st = some (record { endian = endian; out = st.out; args = st.args })
  pack_field skip st = some (record { endian = st.endian; out = st.out ++ 0 ∷ []; args = st.args })
  pack_field (align op) st = some (record {
    endian = st.endian;
    out = st.out ++ replicate (gap op (length st.out)) 0;
    args = st.args;
  })
  pack_field (chars zero) st = none
  pack_field field st = pack_next field st

  -- The result of the loop, when no argument is left.
  unfoldable pub packed : List ℕ → List (Arg F) → Option (List ℕ)
  packed out [] = some out
  packed out (v ∷ args) = none

  unfoldable pub string_pack : List ℕ → List (Arg F) → Option (List ℕ)
  string_pack fmt args = do
    st ← each_field pack_field (length fmt) fmt (record { endian = false; out = []; args = args })
    packed st.out st.args
