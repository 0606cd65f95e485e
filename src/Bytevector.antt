-- ===== src/Bytevector.antt =====
-- scmvector.cpp: bytevectors as lists of bytes. Arguments are fixnums; an optional argument is
-- `none` when it is missing. The code converts each index from 64 to 32 bits (`int i = numi(k)`).
pub mod Access
pub mod Copy
mod Tests
use dummyscheme.Common.{
  none, some, zero, suc, true, false, [], ◌∷◌, guard, ◌>>◌, ◌>>=◌, Option, List, ℕ, ◌%◌, length,
  leb, ◌++◌, ◌^◌, ◌&&◌, replicate, get_elem?, set, take, if◌then◌else◌, ◌-◌, ltb, drop, ◌+◌,
}
use dummyscheme.Common.Int.{ℤ, pos, negsuc, leb_ℤ, pos_part, ltb_ℤ}
use dummyscheme.Common.Signed.{to_word}

-- The conversion of a fixnum to `int`.
abbrev pub int32 : ℤ → ℤ
int32 k = let w = to_word k % 2 ^ 32 in if ltb w (2 ^ 31) then pos w else negsuc (2 ^ 32 - 1 - w)

-- `n >= 0 && n <= 255`
unfoldable pub byteval : ℤ → Option ℕ
byteval v = do
  guard (leb_ℤ (pos 0) (int32 v) && leb_ℤ (int32 v) (pos 255))
  some (pos_part (int32 v))

-- The filling is 0 when it is missing.
unfoldable pub make_bytevector : ℤ → Option ℤ → Option (List ℕ)
make_bytevector p fill = do
  guard (leb_ℤ (pos 0) (int32 p))
  b ← elim fill [ none ↦ some 0 | some v ↦ byteval v ]
  some (replicate (pos_part (int32 p)) b)

unfoldable pub bytevector : List ℤ → Option (List ℕ)
bytevector [] = some []
bytevector (v ∷ args) = do b ← byteval v; bs ← bytevector args; some (b ∷ bs)

-- `i >= 0 && i < bv->len`
unfoldable pub element_index : ℤ → ℕ → Option ℕ
element_index k len = do
  guard (leb_ℤ (pos 0) (int32 k) && ltb_ℤ (int32 k) (pos len))
  some (pos_part (int32 k))

unfoldable pub bytevector_u8_ref : List ℕ → ℤ → Option ℕ
bytevector_u8_ref bv k = do i ← element_index k (length bv); get_elem? bv i

unfoldable pub bytevector_u8_set : List ℕ → ℤ → ℤ → Option (List ℕ)
bytevector_u8_set bv k v = do i ← element_index k (length bv); b ← byteval v; some (set bv i b)

-- An index between the elements, or the default.
unfoldable pub bytevector_indexarg : Option ℤ → ℕ → ℕ → Option ℕ
bytevector_indexarg none len deflt = some deflt
bytevector_indexarg (some v) len deflt = do
  guard (leb_ℤ (pos 0) (int32 v) && leb_ℤ (int32 v) (pos len))
  some (pos_part (int32 v))

-- `start` and `end`, in order.
unfoldable pub range_args : Option ℤ → Option ℤ → ℕ → Option (ℕ × ℕ)
range_args start end len = do
  s ← bytevector_indexarg start len 0
  e ← bytevector_indexarg end len len
  guard (leb s e)
  some (s, e)

-- Also the bytes of `utf8->string` and `string->utf8`, which copy them unchanged.
unfoldable pub bytevector_copy : List ℕ → Option ℤ → Option ℤ → Option (List ℕ)
bytevector_copy bv start end = do
  (s, e) ← range_args start end (length bv)
  some (take (e - s) (drop s bv))

-- `memmove(dst + at, src + start, end - start)`, also when the two are one object. The sum of
-- `at` and the count must be in range.
unfoldable pub bytevector_copy_to : List ℕ → ℤ → List ℕ → Option ℤ → Option ℤ → Option (List ℕ)
bytevector_copy_to dst at src start end = do
  (s, e) ← range_args start end (length src)
  guard (leb_ℤ (pos 0) (int32 at) && leb (pos_part (int32 at) + (e - s)) (length dst))
  some (
      take (pos_part (int32 at)) dst
      ++ (take (e - s) (drop s src) ++ drop (pos_part (int32 at) + (e - s)) dst))

unfoldable pub bytevector_append : List (List ℕ) → List ℕ
bytevector_append [] = []
bytevector_append (src ∷ args) = src ++ bytevector_append args
