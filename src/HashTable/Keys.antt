-- ===== src/HashTable/Keys.antt =====
-- scmtable.cpp `gethash` and `keyeq`, vm.cpp `SCM::eqp` and vm.h `StrObj::equalp`: the keys of a
-- table as tagged values. A string or symbol is the address of its object, whose characters and
-- `hash` field are parameters. Left out are numbers that are no fixnums, which `SCMMath::numequalp` compares.
pub mod Same
pub mod Laws
use dummyscheme.Common.{ℕ, List, true, false, Bool, ◌&&◌, ◌||◌, ◌==◌, leb, ◌%◌, ◌^◌, if◌then◌else◌}
use dummyscheme.Common.Int.{ℤ, pos_part, leb_ℤ, ltb_ℤ, pos}
use dummyscheme.Common.Signed.{to_word}
use dummyscheme.Bytevector.{int32}
use dummyscheme.Interns.{hash, same_bytes}

-- The tag, by its number, and the number or address.
pub record ValueT : Type 0 where
  pub t : ℕ
  pub v : ℤ

abbrev pub vt_undefined : ℕ
vt_undefined = 0

abbrev pub vt_void : ℕ
vt_void = 1

abbrev pub vt_null : ℕ
vt_null = 2

abbrev pub vt_eof : ℕ
vt_eof = 3

abbrev pub vt_num_integer : ℕ
vt_num_integer = 4

abbrev pub vt_false : ℕ
vt_false = 6

abbrev pub vt_true : ℕ
vt_true = 7

abbrev pub vt_char : ℕ
vt_char = 8

abbrev pub vt_lightuserdata : ℕ
vt_lightuserdata = 9

abbrev pub vt_ref : ℕ
vt_ref = 10

abbrev pub vt_ref_str : ℕ
vt_ref_str = 14

abbrev pub vt_ref_sym : ℕ
vt_ref_sym = 15

unfoldable pub same_int : ℤ → ℤ → Bool
same_int a b = leb_ℤ a b && leb_ℤ b a

-- `isboolean(p1) || isnull(p1)`
unfoldable pub is_constant : ℕ → Bool
is_constant t = t == vt_false || t == vt_true || t == vt_null

-- The keys that are equal to themselves, and whose integers fit an `int`.
unfoldable pub is_key : ValueT → Bool
is_key x =
    if x.t == vt_num_integer
    then same_int (int32 x.v) x.v
    else is_constant x.t || x.t == vt_char || x.t == vt_lightuserdata || leb vt_ref_str x.t

-- The types of one kind are compared by their payload: fixnums, characters, raw pointers and
-- objects.
unfoldable pub eqp : ValueT → ValueT → Bool
eqp x y =
    if x.t == y.t
    then (if is_constant x.t
        then true
        else (x.t == vt_num_integer || x.t == vt_char || x.t == vt_lightuserdata || leb vt_ref x.t)
          && same_int x.v y.v)
    else false

module _ (chars : ℕ → List ℕ) where
  unfoldable pub keyeq : ValueT → ValueT → Bool
  keyeq x y =
      (x.t == vt_ref_str
        && y.t == vt_ref_str
        && same_bytes (chars (pos_part x.v)) (chars (pos_part y.v)))
      || eqp x y

  -- The fields `s->hash`, by address; a negative one is not computed.
  module _ (field : ℕ → ℤ) (seed : ℕ) where
    -- `s->hash` after `gethash`, which computes it if it is negative.
    unfoldable pub hash_field : ℕ → ℤ
    hash_field a = if ltb_ℤ (field a) (pos 0) then int32 (pos (hash (chars a) seed)) else field a

    -- The conversions to `uint` keep the low 32 bits.
    unfoldable pub gethash : ValueT → ℕ
    gethash x =
        if x.t == vt_false
        then 0
        else if x.t == vt_true
        then 1
        else if x.t == vt_null
        then 2
        else if x.t == vt_eof
        then 3
        else if x.t == vt_void
        then 4
        else if x.t == vt_undefined
        then 5
        else if x.t == vt_ref_str || x.t == vt_ref_sym
        then to_word (hash_field (pos_part x.v)) % 2 ^ 32
        else to_word x.v % 2 ^ 32
