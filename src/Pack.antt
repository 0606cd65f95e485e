-- ===== src/Pack.antt =====
-- scmstring.cpp: the integers of `string-pack` and `string-unpack`: `packint`, `loaduint`,
-- `signext` and `parse_intwidth`. Widths are 1 to 8 bytes; `endian` is true for the highest byte
-- first.
pub mod Bytes
pub mod Extend
pub mod Integers
use dummyscheme.Common.{
  none, some, zero, suc, true, false, [], ◌∷◌, guard, ◌>>◌, ◌>>=◌, ℕ, List, ◌>>>◌, Bool, bit_or,
  if◌then◌else◌, ◌*◌, ◌%◌, Option, ◌<<<◌, ◌==◌, ◌+◌, bit_and, ◌-◌, leb, ◌&&◌, ◌^◌, ltb,
}
use dummyscheme.Common.Int.{ℤ, pos, negsuc, leb_ℤ, ◌-ℤ◌}
use dummyscheme.Common.Signed.{to_signed, to_word, complement}

-- `(char)(u >> (8 * k))`
abbrev pub byte_of : ℕ → ℕ → ℕ
byte_of u k = (u >>> (8 * k)) % 256

-- `for (int k = n - 1; k >= 0; k--)`
unfoldable pub put_down : ℕ → ℕ → List ℕ
put_down u zero = []
put_down u (suc k) = byte_of u k ∷ put_down u k

-- `for (int k = 0; k < n; k++)`, from `k` on by the rounds left.
unfoldable pub put_up : ℕ → ℕ → ℕ → List ℕ
put_up u k zero = []
put_up u k (suc left) = byte_of u k ∷ put_up u (suc k) left

unfoldable pub put_word : ℕ → ℕ → Bool → List ℕ
put_word u n endian = if endian then put_down u n else put_up u 0 n

-- The checks below 8 bytes; `none` is a failed assertion.
unfoldable pub narrow_signed : ℤ → ℕ → Option ℕ
narrow_signed val n = do
  guard (leb_ℤ (pos 0 -ℤ pos (2 ^ (8 * n - 1))) val && leb_ℤ val (pos (2 ^ (8 * n - 1) - 1)))
  some (bit_and (to_word val) ((1 <<< (8 * n)) - 1))

unfoldable pub narrow_unsigned : ℤ → ℕ → Option ℕ
narrow_unsigned val n = do guard (ltb (to_word val) (1 <<< (8 * n))); some (to_word val)

-- The word that `packint` writes.
unfoldable pub checked_word : ℤ → ℕ → Bool → Option ℕ
checked_word val n sgn =
    if sgn
    then (if n == 8 then some (to_word val) else narrow_signed val n)
    else (guard (leb_ℤ (pos 0) val)
        >> (if n == 8 then some (to_word val) else narrow_unsigned val n))

unfoldable pub packint : ℤ → ℕ → Bool → Bool → Option (List ℕ)
packint val n sgn endian = do u ← checked_word val n sgn; some (put_word u n endian)

-- `v = (v << 8) | s[k]` over the bytes in order, and from the last one down.
unfoldable pub load_up : List ℕ → ℕ → ℕ
load_up [] v = v
load_up (s ∷ ss) v = load_up ss (bit_or (v <<< 8) s)

unfoldable pub load_down : List ℕ → ℕ
load_down [] = 0
load_down (s ∷ ss) = bit_or (load_down ss <<< 8) s

unfoldable pub loaduint : List ℕ → Bool → ℕ
loaduint s endian = if endian then load_up s 0 else load_down s

unfoldable pub signext : ℕ → ℕ → ℤ
signext u n =
    if n == 8
    then to_signed u
    else if bit_and u (1 <<< (8 * n - 1)) == 0
    then to_signed u
    else to_signed (bit_or u (complement ((1 <<< (8 * n)) - 1)))

-- What `string-unpack` makes of `n` bytes.
unfoldable pub unpackint : List ℕ → ℕ → Bool → Bool → ℤ
unpackint s n sgn endian = let u = loaduint s endian in if sgn then signext u n else to_signed u

-- The width read, or the default for none (or 0), and the characters after it. The code adds the
-- digits up in an `int`, so that this is what it gives for a width below 2 ^ 31.
unfoldable pub parse_digits : List ℕ → ℕ → ℕ × List ℕ
parse_digits [] n = (n, [])
parse_digits (c ∷ cs) n =
    let rest = parse_digits cs (n * 10 + (c - b'0')) in
    if leb b'0' c && leb c b'9' then rest else (n, c ∷ cs)

unfoldable pub parse_intwidth : List ℕ → ℕ → ℕ × List ℕ
parse_intwidth s deflt = let (n, rest) = parse_digits s 0 in (if n == 0 then deflt else n, rest)
