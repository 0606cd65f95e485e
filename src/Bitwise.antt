-- ===== src/Bitwise.antt =====
-- scmmath.cpp: the bitwise operations on fixnums (SRFI-151), computed on unsigned 64-bit words and
-- cast back, and the xorshift generator of SRFI-27. The checks on the types of the arguments are
-- not modelled: arguments are fixnums here.
mod Tests
pub mod Ash
pub mod Field
use dummyscheme.Common.{
  none, some, zero, suc, true, false, [], ◌∷◌, guard, ◌>>◌, ◌>>=◌, ℕ, if◌then◌else◌, List, Option,
  leb, bit_and, bit_or, bit_xor, ◌>>>◌, ◌<<<◌, ◌+◌, ◌-◌, ◌&&◌, ◌%◌, ◌==◌,
}
use dummyscheme.Common.Int.{ℤ, pos, negsuc, leb_ℤ, ltb_ℤ, ◌-ℤ◌, pos_part}
use dummyscheme.Common.Signed.{to_signed, to_word, complement}

-- The branch for a negative count `y`, by `cnt`, which is `-y`.
unfoldable pub shift_down : ℤ → ℕ → ℤ
shift_down x cnt =
    let ur = to_word x >>> cnt in
    if leb 64 cnt
    then (if ltb_ℤ x (pos 0) then negsuc 0 else pos 0)
    else to_signed (if ltb_ℤ x (pos 0) then bit_or ur (complement ((1 <<< (64 - cnt)) - 1)) else ur)

unfoldable pub bitop_ash : ℤ → ℤ → ℤ
bitop_ash x (negsuc y) = shift_down x (suc y)
bitop_ash x (pos y) = if leb 64 y then pos 0 else to_signed (to_word x <<< y)

-- `~(scm_uint)x`
unfoldable pub bitwise_not : ℤ → ℤ
bitwise_not p = to_signed (complement (to_word p))

-- The loops of `bitwise-and`, `bitwise-ior` and `bitwise-xor` over the arguments.
unfoldable pub bitwise_and : List ℤ → ℕ → ℤ
bitwise_and [] acc = to_signed acc
bitwise_and (cur ∷ args) acc = bitwise_and args (bit_and acc (to_word cur))

unfoldable pub bitwise_ior : List ℤ → ℕ → ℤ
bitwise_ior [] acc = to_signed acc
bitwise_ior (cur ∷ args) acc = bitwise_ior args (bit_or acc (to_word cur))

unfoldable pub bitwise_xor : List ℤ → ℕ → ℤ
bitwise_xor [] acc = to_signed acc
bitwise_xor (cur ∷ args) acc = bitwise_xor args (bit_xor acc (to_word cur))

-- A negative count is an error.
unfoldable pub bitwise_shift_left : ℤ → ℤ → Option ℤ
bitwise_shift_left p n = do guard (leb_ℤ (pos 0) n); some (bitop_ash p n)

unfoldable pub bitwise_shift_right : ℤ → ℤ → Option ℤ
bitwise_shift_right p n = do guard (leb_ℤ (pos 0) n); some (bitop_ash p (pos 0 -ℤ n))

-- `x < 0 ? ~(scm_uint)x : (scm_uint)x`
unfoldable pub magnitude_bits : ℤ → ℕ
magnitude_bits x = if ltb_ℤ x (pos 0) then complement (to_word x) else to_word x

-- `while (ux != 0) { len++; ux >>= 1; }`, with fuel: 64 rounds empty a word.
unfoldable pub length_rounds : ℕ → ℕ → ℕ → ℕ
length_rounds zero ux len = len
length_rounds (suc fuel) ux len =
    let rest = length_rounds fuel (ux >>> 1) (len + 1) in if ux == 0 then len else rest

unfoldable pub bit_length : ℤ → ℕ
bit_length x = length_rounds 64 (magnitude_bits x) 0

-- The three cases for `r`.
unfoldable pub field_bits : ℕ → ℕ → ℕ → ℕ
field_bits x s e =
    if leb 64 s
    then 0
    else if leb 64 (e - s)
    then x >>> s
    else bit_and (x >>> s) ((1 <<< (e - s)) - 1)

-- The bits from `start` on, below `end`; the two are `int`s.
unfoldable pub bit_field : ℤ → ℤ → ℤ → Option ℤ
bit_field p start end = do
  guard (leb_ℤ (pos 0) start && leb_ℤ start end)
  some (to_signed (field_bits (to_word p) (pos_part start) (pos_part end)))

-- The state of the generator: `x ^= x << 13; x ^= x >> 7; x ^= x << 17;`
unfoldable pub rng_next : ℕ → ℕ
rng_next randstate =
    let x1 = bit_xor randstate (randstate <<< 13) in
    let x2 = bit_xor x1 (x1 >>> 7) in bit_xor x2 (x2 <<< 17)

-- The number drawn, and the state after it.
unfoldable pub random_integer : ℤ → ℕ → Option (ℤ × ℕ)
random_integer n randstate = do
  guard (ltb_ℤ (pos 0) n)
  some (to_signed (rng_next randstate % to_word n), rng_next randstate)
