-- ===== src/Format/Tests.antt =====
-- The theorems on formats at concrete ones, with numbers in place of machine reals.
use dummyscheme.Common.{
  none, some, ◌∷◌, true, ℕ, List, get_or, replicate, ◌≡◌, length-replicate, arith, inr, refl, [],
}
use dummyscheme.Common.Int.{pos, negsuc, pos_part, ◌-ℤ◌}
use dummyscheme.Format.{
  Field, integer, real, prefixed, terminated, order, align, each_field, read_field, read_integer,
  read_value, sized, gap,
}
use dummyscheme.Format.Reals.{Floats, packdouble, byte_order}
use dummyscheme.Format.Pack.{
  Arg, int, float, string, string_pack, pack_field, pack_next, pack_nextarg, pack_value, packed,
}
use dummyscheme.Format.Fields.{fields, fields_of}
use dummyscheme.Format.Size.{string_packsize}
use dummyscheme.Format.Length.{string_packsize-string_pack, string_pack-eq-none}
use dummyscheme.Pack.{
  parse_intwidth, parse_digits, packint, checked_word, narrow_signed, put_word, put_up,
}

abbrev whole_numbers : Floats
whole_numbers = record {
  Double = ℕ;
  to_bytes = λ n f. replicate n f;
  of_bytes = λ n s. get_or s 0 0;
  of_int = λ k. pos_part k;
}

-- ">hX4fs1z"
abbrev fmt : List ℕ
fmt = b'>' ∷ b'h' ∷ b'X' ∷ b'4' ∷ b'f' ∷ b's' ∷ b'1' ∷ b'z' ∷ []

abbrev options : List Field
options = order true ∷ integer 2 true ∷ align 4 ∷ real 4 ∷ prefixed 1 ∷ terminated ∷ []

abbrev args : List (Arg whole_numbers)
args = int (negsuc 299) ∷ float 7 ∷ string (104 ∷ 105 ∷ []) ∷ string (33 ∷ []) ∷ []

-- "bX4d"
abbrev fixed : List ℕ
fixed = b'b' ∷ b'X' ∷ b'4' ∷ b'd' ∷ []

abbrev fixed_options : List Field
fixed_options = integer 1 true ∷ align 4 ∷ real 8 ∷ []

fixed_valid : fields_of fixed ≡ some fixed_options
unfolding fields read_field read_integer read_value sized parse_intwidth parse_digits
fixed_valid = refl

packs :
    string_pack whole_numbers fixed (int (pos 5) ∷ float 9 ∷ [])
    ≡ some (5 ∷ 0 ∷ 0 ∷ 0 ∷ replicate 8 9)
unfolding string_pack each_field read_field read_integer read_value sized parse_intwidth
    parse_digits pack_field pack_next pack_nextarg pack_value packed packint checked_word
    narrow_signed packdouble byte_order put_word put_up gap ◌-ℤ◌
packs = refl

string_packsize-string_pack_example : string_packsize fixed ≡ some 12
string_packsize-string_pack_example =
    string_packsize-string_pack whole_numbers fixed (int (pos 5) ∷ float 9 ∷ []) fixed_options
      (5 ∷ 0 ∷ 0 ∷ 0 ∷ replicate 8 9) (λ n f w. length-replicate n f) fixed_valid
      ((omega arith, omega arith), (omega arith, (inr refl, tt))) packs (omega arith)

string_pack-eq-none_example : string_pack whole_numbers fixed (int (pos 5) ∷ []) ≡ none
string_pack-eq-none_example =
    string_pack-eq-none whole_numbers fixed (int (pos 5) ∷ []) fixed_options fixed_valid
      (λ e. absurd (omega (arith, e)))
