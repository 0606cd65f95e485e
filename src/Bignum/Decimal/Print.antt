-- ===== src/Bignum/Decimal/Print.antt =====
-- What `tostr` prints: the digits of the magnitude, with no leading zero, after a sign.
use mathlib.Core.List.{append-nil, reverse-append}
use dummyscheme.Common.{
  ℕ, arith, [], refl, zero, suc, List, ◌*◌, All, ◌<◌, ◌∷◌, ◌-◌, ◌≤◌, ◌≢◌, false, true, ◌+◌, ◌++◌,
  ◌≡◌, ◌/◌, ◌%◌, Bool-cases, ◌==◌, ◌^◌, inl, ==→eq, inr, ==-false→ne, reverse, length,
}
use dummyscheme.Bignum.Decimal.{put_chunk, put_chunks, div_limbs, tostr, sign_char}
use dummyscheme.Bignum.{
  value, IsWords, iszero_limbs, trim, Sign, NumBig, IsValid, plus, magnitude, minus, iszero,
}
use dummyscheme.Bignum.Value.{
  iszero_limbs_iff, value-trim, trim-IsWords, iszero_iff, value-lt-weight, weight-two-pow,
}
use dummyscheme.Bignum.Decimal.Chunks.{div_limbs_lem}
use dummyscheme.Common.Powers.{two-pow-suc}

-- The number that digit characters stand for, the lowest first.
abbrev pub low_first : List ℕ → ℕ
low_first [] = 0
low_first (c ∷ cs) = c - b'0' + 10 * low_first cs

abbrev pub IsDigits : List ℕ → Type 0
IsDigits = All (λ c. (b'0' ≤ c) × (c ≤ b'9'))

-- The last digit is not 0: read the other way round, there is no leading zero.
abbrev pub NoLeadingZero : List ℕ → Type 0
NoLeadingZero [] = ⊥
NoLeadingZero (c ∷ []) = c ≢ b'0'
NoLeadingZero (c ∷ e ∷ cs) = NoLeadingZero (e ∷ cs)

abbrev pow_ten : ℕ → ℕ
pow_ten zero = 1
pow_ten (suc k) = 10 * pow_ten k

NoLeadingZero-cons : (c : ℕ) (cs : List ℕ) → NoLeadingZero cs → NoLeadingZero (c ∷ cs)
NoLeadingZero-cons c [] z = absurd z
NoLeadingZero-cons c (e ∷ cs) z = z

-- A chunk that is not the last has all its digits.
full_chunk :
    (k n : ℕ) (rest : List ℕ)
    → n < pow_ten k
    → IsDigits rest
    → NoLeadingZero rest
    → (low_first (put_chunk k false n ++ rest) ≡ n + pow_ten k * low_first rest)
      × IsDigits (put_chunk k false n ++ rest)
      × NoLeadingZero (put_chunk k false n ++ rest)
unfolding put_chunk
full_chunk zero n rest h d z = (omega arith, d, z)
full_chunk (suc k) n rest h d z =
    let (sum, digits, top) = full_chunk k (n / 10) rest (omega arith) d z in
    (
      omega (arith, sum),
      (omega arith, digits),
      NoLeadingZero-cons (b'0' + n % 10) (put_chunk k false (n / 10) ++ rest) top,
    )

-- The last chunk, of a number that is not 0, stops at its highest digit.
last_chunk :
    (k n : ℕ)
    → n < pow_ten k
    → 0 < n
    → (low_first (put_chunk k true n) ≡ n)
      × IsDigits (put_chunk k true n)
      × NoLeadingZero (put_chunk k true n)
unfolding put_chunk
last_chunk zero n h p = absurd (omega arith)
last_chunk (suc k) n h p = elim (Bool-cases (n / 10 == 0)) [
  | inl done ↦
      rw done
        (omega (arith, ==→eq (n / 10) 0 done), omega arith, omega (arith, ==→eq (n / 10) 0 done))
  | inr more ↦
      let (sum, digits, top) =
        last_chunk k (n / 10) (omega arith) (omega (arith, ==-false→ne (n / 10) 0 more)) in
      rw more (
        omega (arith, sum),
        (omega arith, digits),
        NoLeadingZero-cons (b'0' + n % 10) (put_chunk k true (n / 10)) top,
      )
]

put_chunks-zero : (f : ℕ) (xs : List ℕ) → value xs ≡ 0 → put_chunks f xs ≡ []
unfolding put_chunks
put_chunks-zero zero xs h = refl
put_chunks-zero (suc f) xs h = rw ((iszero_limbs_iff xs).1 h)

-- The buffer before it is reversed, once the fuel covers the bits of the number.
pub put_chunks_lem :
    (f : ℕ) (xs : List ℕ)
    → IsWords xs
    → value xs ≢ 0
    → value xs < 2 ^ f
    → (low_first (put_chunks f xs) ≡ value xs)
      × IsDigits (put_chunks f xs)
      × NoLeadingZero (put_chunks f xs)
unfolding put_chunks
put_chunks_lem zero xs w h l = absurd (omega (arith, h))
put_chunks_lem (suc f) xs w h l =
    let running : iszero_limbs xs ≡ false = ground (arith, iszero_limbs_iff xs) in
    let (sum, small, words, same) = div_limbs_lem xs w in
    let qs = (div_limbs xs).0 in
    let rem = (div_limbs xs).1 in
    let kept = value-trim qs in
    elim (Bool-cases (iszero_limbs (trim qs))) [
      | inl done ↦
          let gone : value (trim qs) ≡ 0 = (iszero_limbs_iff (trim qs)).0 done in
          let chunk = last_chunk 9 rem (omega arith) (omega (arith, h, sum, kept, gone)) in
          rw (running, done, put_chunks-zero f (trim qs) gone, append-nil)
            (omega (arith, chunk.0, sum, kept, gone), chunk.1, chunk.2)
      | inr more ↦
          let left : value (trim qs) ≢ 0 = ground (arith, iszero_limbs_iff (trim qs)) in
          let (rest, digits, top) =
            put_chunks_lem f (trim qs) (trim-IsWords qs words) left
              (omega (arith, sum, kept, two-pow-suc f)) in
          let chunk = full_chunk 9 rem (put_chunks f (trim qs)) small digits top in
          rw (running, more) (omega (arith, chunk.0, rest, sum, kept), chunk.1, chunk.2)
    ]

-- A minus sign stands before the digits of a negative number.
abbrev pub minus_sign : Sign → List ℕ
minus_sign plus = []
minus_sign minus = b'-' ∷ []

reverse-sign_char : (s : Sign) → reverse (sign_char s) ≡ minus_sign s
unfolding sign_char
reverse-sign_char plus = refl
reverse-sign_char minus = refl

-- What is printed of a number that is not 0.
pub record Prints (a : NumBig) : Type 0 where
  pub digits : List ℕ
  pub printed : tostr a ≡ minus_sign a.sign ++ reverse digits
  pub number : low_first digits ≡ magnitude a
  pub are_digits : IsDigits digits
  pub no_leading_zero : NoLeadingZero digits

-- For a valid bignum that is not 0, `tostr` prints a minus sign if the sign is minus, and then
-- decimal digits that stand for the magnitude and do not begin with 0.
pub tostr-Prints : (a : NumBig) → IsValid a → magnitude a ≢ 0 → Prints a
unfolding tostr
tostr-Prints a v h =
    let running : iszero a ≡ false = ground (arith, iszero_iff a) in
    let bound : value a.limbs < 2 ^ (length a.limbs * 64) =
      omega (arith, value-lt-weight a.limbs v.words, weight-two-pow (length a.limbs)) in
    let (number, digits, top) = put_chunks_lem (length a.limbs * 64) a.limbs v.words h bound in
    record {
      digits = put_chunks (length a.limbs * 64) a.limbs;
      printed = rw (running, reverse-append, reverse-sign_char);
      number = number;
      are_digits = digits;
      no_leading_zero = top;
    }
