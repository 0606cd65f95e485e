-- ===== src/Strings.antt =====
-- scmstring.cpp: the procedures on strings and characters, on the characters that an object
-- holds. An argument list is a list of arguments of the type that the procedure asks for; an
-- optional argument is `none` when it is missing. Which object a result is, a new one or an
-- interned one that is shared, is not modelled.
pub mod Build
pub mod Order
pub mod Compare
mod Tests
pub mod Access
use dummyscheme.Common.{
  none, some, zero, suc, [], ◌∷◌, true, false, ◌>>=◌, ◌>>◌, guard, ℕ, Bool, List, length, get_elem?,
  set, replicate, take, drop, Option, get_or, ◌+◌, if◌then◌else◌, leb, ◌==◌, not, ◌&&◌, ltb, ◌||◌,
  ◌-◌, min,
}
use dummyscheme.Common.Int.{ℤ, pos, negsuc, leb_ℤ, ltb_ℤ, pos_part, ◌+ℤ◌}
use dummyscheme.Bytevector.{int32}
use dummyscheme.Interns.{same_bytes}

-- `strintern(n)` gives zeros, which is what the allocator leaves. A negative length, for which the
-- source writes in front of the object, is an error here.
unfoldable pub make_string : ℤ → Option ℕ → Option (List ℕ)
make_string n fill = do
  guard (leb_ℤ (pos 0) (int32 n))
  some (replicate (pos_part (int32 n)) (elim fill [ none ↦ 0 | some c ↦ c ]))

-- `ptr->str[i++] = c` over the arguments.
unfoldable pub write_all : List ℕ → ℕ → List ℕ → List ℕ
write_all str i [] = str
write_all str i (c ∷ cs) = write_all (set str i c) (suc i) cs

unfoldable pub string : List ℕ → List ℕ
string args = write_all (replicate (length args) 0) 0 args

-- `for (int n = len - 1; n >= 0; n--)`
unfoldable pub cons_down : List ℕ → ℕ → List ℕ → List ℕ
cons_down str zero out = out
cons_down str (suc n) out = cons_down str n (get_or str n 0 ∷ out)

unfoldable pub string_to_list : List ℕ → List ℕ
string_to_list p = cons_down p (length p) []

unfoldable pub list_to_string : List ℕ → List ℕ
list_to_string p = write_all (replicate (length p) 0) 0 p

-- `for (int i = 0; i < len; i++)`, from `i` on by the rounds left.
unfoldable pub fill_up : List ℕ → ℕ → ℕ → ℕ → List ℕ
fill_up str i zero c = str
fill_up str i (suc left) c = fill_up (set str i c) (suc i) left c

unfoldable pub string_fill : Bool → List ℕ → ℕ → Option (List ℕ)
string_fill isimmutable p c = do guard (not isimmutable); some (fill_up p 0 (length p) c)

-- The two loops: the sum of the lengths, and the copies one after the other.
unfoldable pub sum_length : List (List ℕ) → ℕ → ℕ
sum_length [] tlen = tlen
sum_length (s ∷ args) tlen = sum_length args (tlen + length s)

unfoldable pub copy_all : List ℕ → ℕ → List (List ℕ) → List ℕ
copy_all str tlen [] = str
copy_all str tlen (s ∷ args) = copy_all (write_all str tlen s) (tlen + length s) args

unfoldable pub string_append : List (List ℕ) → List ℕ
string_append args = copy_all (replicate (sum_length args 0) 0) 0 args

unfoldable pub substring : List ℕ → ℤ → ℤ → Option (List ℕ)
substring p start end = do
  guard (
      leb_ℤ (pos 0) (int32 start)
      && leb_ℤ (int32 start) (int32 end)
      && leb_ℤ (int32 end) (pos (length p)))
  some (take (pos_part (int32 end) - pos_part (int32 start)) (drop (pos_part (int32 start)) p))

unfoldable pub string_len : List ℕ → ℤ
string_len p = pos (length p)

-- `numi(k) < Sslen(pstr)`. A negative index, which passes the source's check, is an error here.
unfoldable pub char_index : List ℕ → ℤ → Option ℕ
char_index p (pos k) = do guard (ltb k (length p)); some k
char_index p (negsuc k) = none

unfoldable pub string_ref : List ℕ → ℤ → Option ℕ
string_ref p k = do i ← char_index p k; get_elem? p i

unfoldable pub string_set : Bool → List ℕ → ℤ → ℕ → Option (List ℕ)
string_set isimmutable p k c = do guard (not isimmutable); i ← char_index p k; some (set p i c)

-- Each argument is compared with the first one.
unfoldable pub all_equal : List ℕ → List (List ℕ) → Bool
all_equal p [] = true
all_equal p (s ∷ args) = let rest = all_equal p args in if same_bytes p s then rest else false

unfoldable pub char_toint : ℕ → ℤ
char_toint c = pos c

unfoldable pub int_tochar : ℤ → Option ℕ
int_tochar k = do
  guard (leb_ℤ (pos 0) (int32 k) && leb_ℤ (int32 k) (pos 255))
  some (pos_part (int32 k))

-- `char=?` and its relatives, by the operator.
unfoldable pub char_cmp : (ℕ → ℕ → Bool) → ℕ → List ℕ → Bool
char_cmp op p [] = true
char_cmp op p (c ∷ args) = let rest = char_cmp op p args in if op p c then rest else false

unfoldable pub char_numericq : ℕ → Bool
char_numericq c = leb 48 c && leb c 57

unfoldable pub char_upperq : ℕ → Bool
char_upperq c = leb 65 c && leb c 90

unfoldable pub char_lowerq : ℕ → Bool
char_lowerq c = leb 97 c && leb c 122

unfoldable pub char_whitespaceq : ℕ → Bool
char_whitespaceq c = c == 32 || c == 9 || c == 10 || c == 13

-- `b >= 0 && b <= 255` of each argument as an `int`, the first one and the others.
unfoldable pub string_char : ℤ → List ℤ → Option (List ℕ)
string_char cur [] = do b ← int_tochar cur; some (b ∷ [])
string_char cur (k ∷ args) = do b ← int_tochar cur; bs ← string_char k args; some (b ∷ bs)

-- From the first byte asked for up to the last one: `for (int k = j; k >= i; k--)`.
unfoldable pub bytes_down : List ℕ → ℕ → ℕ → List ℕ → List ℕ
bytes_down str i zero out = out
bytes_down str i (suc left) out = bytes_down str i left (get_or str (i + left) 0 ∷ out)

-- `if (i < 0) i = s->len + i`
unfoldable pub from_end : List ℕ → ℤ → ℤ
from_end str i = if ltb_ℤ i (pos 0) then pos (length str) +ℤ i else i

-- Both indices are 0 when missing, and the second is the first.
unfoldable pub string_byte : List ℕ → Option ℤ → Option ℤ → Option (List ℕ)
string_byte str start end = do
  let i = from_end str (elim start [ none ↦ pos 0 | some k ↦ int32 k ])
  let j =
      from_end str
        (elim start [ none ↦ pos 0 | some k ↦ elim end [ none ↦ int32 k | some l ↦ int32 l ] ])
  guard (leb_ℤ (pos 0) i && ltb_ℤ i (pos (length str)) && leb_ℤ i j)
  let last = min (pos_part j) (length str - 1)
  some (bytes_down str (pos_part i) (last + 1 - pos_part i) [])
