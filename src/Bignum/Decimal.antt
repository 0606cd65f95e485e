-- ===== src/Bignum/Decimal.antt =====
-- `SCM::div128by64` and `NumBigObj::tostr` (vm.cpp), and `bigfromstr` (scmmath.cpp): a bignum
-- printed in base 10 by repeated division by 10 ^ 9, and read from digits of any radix up to 16.
-- Characters are their ASCII codes.
pub mod Chunks
pub mod Print
pub mod Read
use dummyscheme.Common.{
  ℕ, zero, suc, ◌+◌, ◌-◌, ◌*◌, ◌/◌, ◌%◌, ◌^◌, Bool, true, false, ◌&&◌, Option, none, some, List, [],
  ◌∷◌, ◌++◌, reverse, bit_and, bit_or, half_mod, leb, ltb, ◌==◌, if◌then◌else◌, ◌<<<◌, ◌>>>◌, ◌>>=◌,
  length,
}
use dummyscheme.Bignum.Add.{addabs}
use dummyscheme.Bignum.Mul.{mul}
use dummyscheme.Bignum.{Sign, plus, minus, NumBig, normalize, iszero, iszero_limbs, trim, copy}

-- `UINT_BASE` and `UINT_BASE_LEN`
abbrev pub uint_base : ℕ
uint_base = 10 ^ 9

abbrev pub uint_base_len : ℕ
uint_base_len = 9

-- The quotient (through `quot_lo`) and the remainder.
pub record Div128 : Type 0 where
  pub quot_lo : ℕ
  pub rem : ℕ

unfoldable pub div128by64 : ℕ → ℕ → ℕ → Div128
div128by64 u_hi u_lo divisor =
    let part1 = bit_or (u_hi <<< 32) (u_lo >>> 32) in
    let q1 = part1 / divisor in
    let part0 = bit_or ((part1 % divisor) <<< 32) (bit_and u_lo (half_mod - 1)) in
    let q0 = part0 / divisor in record { quot_lo = bit_or (q1 <<< 32) q0; rem = part0 % divisor }

-- The inner loop of `tostr`, from the top limb down: the quotient's limbs and the remainder.
unfoldable pub div_limbs : List ℕ → List ℕ × ℕ
div_limbs [] = ([], 0)
div_limbs (x ∷ xs) =
    let (qs, rem) = div_limbs xs in let d = div128by64 rem x uint_base in (d.quot_lo ∷ qs, d.rem)

-- `for (int k = 0; k < UINT_BASE_LEN; ++k)`, by the rounds left: the digits of `rem`, the last
-- first, all nine of them unless this is the last chunk.
unfoldable pub put_chunk : ℕ → Bool → ℕ → List ℕ
put_chunk zero is_last_chunk rem = []
put_chunk (suc k) is_last_chunk rem =
    let rest = put_chunk k is_last_chunk (rem / 10) in
    (b'0' + rem % 10) ∷ (if is_last_chunk && rem / 10 == 0 then [] else rest)

-- `while (!tmp->iszero())`, with fuel: what is put into the buffer.
unfoldable pub put_chunks : ℕ → List ℕ → List ℕ
put_chunks zero limbs = []
put_chunks (suc fuel) limbs =
    let (qs, rem) = div_limbs limbs in
    let kept = trim qs in
    let here = put_chunk uint_base_len (iszero_limbs kept) rem ++ put_chunks fuel kept in
    if iszero_limbs limbs then [] else here

-- `if (sign < 0) buf->put('-');`
unfoldable pub sign_char : Sign → List ℕ
sign_char plus = []
sign_char minus = b'-' ∷ []

-- A round takes at least one bit off, so that 64 rounds for each limb are enough.
unfoldable pub tostr : NumBig → List ℕ
tostr a =
    if iszero a
    then b'0' ∷ []
    else reverse (put_chunks (length a.limbs * 64) a.limbs ++ sign_char a.sign)

-- The value of a digit; `none` is the error on another character.
unfoldable pub digit_of : ℕ → Option ℕ
digit_of c =
    if leb b'0' c && leb c b'9'
    then some (c - b'0')
    else if leb b'a' c && leb c b'f'
    then some (10 + (c - b'a'))
    else if leb b'A' c && leb c b'F'
    then some (10 + (c - b'A'))
    else none

-- A bignum of one limb.
abbrev pub one_limb : ℕ → NumBig
one_limb d = record { sign = plus; limbs = d ∷ [] }

-- The loop over the digits, with the result so far.
unfoldable pub read_digits : ℕ → List ℕ → NumBig → Option NumBig
read_digits radix [] bigresult = some bigresult
read_digits radix (c ∷ cs) bigresult = digit_of c >>= λ d. read_digits radix cs (
    normalize
      (record (addabs (record (mul bigresult (one_limb radix)) { sign = plus }) (one_limb d)) {
        sign = plus;
      }))

unfoldable pub bigfromstr : List ℕ → ℕ → Sign → Option NumBig
bigfromstr digits radix sign = do
  bigresult ← read_digits radix digits (one_limb 0)
  some (record bigresult { sign = if iszero bigresult then plus else sign })
