-- ===== src/Bignum/Decimal/Read.antt =====
-- `bigfromstr` reads the number that the digits stand for, and it reads back what `tostr` prints.
use mathlib.Core.List.{reverse-cons}
use dummyscheme.Bignum.Value.{iszero_iff}
use dummyscheme.Common.{
  none, some, ℕ, arith, [], refl, List, Option, some, ◌≡◌, ◌<◌, word_mod, ◌∷◌, ◌>>=◌, ◌*◌, ◌+◌,
  Option-cases, inl, inr, ◌++◌, ◌≤◌, ◌≢◌, ◌-◌, reverse, ◌∙◌, ap, if◌then◌else◌, Bool-cases, ltb,
}
use dummyscheme.Bignum.Decimal.{digit_of, read_digits, one_limb, bigfromstr, tostr}
use dummyscheme.Bignum.{
  NumBig, normalize, IsValid, magnitude, plus, Sign, to_int, with_sign, iszero, minus,
}
use dummyscheme.Bignum.Add.{addabs}
use dummyscheme.Bignum.Mul.{mul}
use dummyscheme.Bignum.Mul.Rows.{mul-IsValid, magnitude-mul}
use dummyscheme.Bignum.Add.Magnitude.{addabs-IsValid, magnitude-addabs_of_le}
use dummyscheme.Bignum.Value.{normalize-IsValid, length_pos, magnitude-normalize}
use dummyscheme.Bignum.Decimal.Print.{IsDigits, low_first, tostr-Prints, minus_sign}

-- The value of a digit character, by the places of the digits and letters in ASCII.
abbrev pub digit_value : ℕ → Option ℕ
digit_value c =
    if ltb c 48
    then none
    else if ltb c 58
    then some (c - 48)
    else if ltb c 65
    then none
    else if ltb c 71
    then some (c - 55)
    else if ltb c 97
    then none
    else if ltb c 103
    then some (c - 87)
    else none

digit_of-digit_value : (c : ℕ) → digit_of c ≡ digit_value c
unfolding digit_of
digit_of-digit_value c = ground arith

-- The number that digit characters stand for in a radix, the highest first.
abbrev pub number_of : ℕ → List ℕ → ℕ → Option ℕ
number_of radix [] acc = some acc
number_of radix (c ∷ cs) acc = digit_value c >>= λ d. number_of radix cs (acc * radix + d)

-- Both fail, or the object found is valid and stands for the number.
abbrev pub Represents : Option ℕ → Option NumBig → Type 0
Represents none none = Unit
Represents none (some b) = ⊥
Represents (some n) none = ⊥
Represents (some n) (some b) = IsValid b × (magnitude b ≡ n)

digit_value-lt : (c d : ℕ) → digit_value c ≡ some d → d < 16
digit_value-lt c d h = ground arith

-- One digit: multiply by the radix and add.
abbrev shifted_in : ℕ → ℕ → NumBig → NumBig
shifted_in radix d r =
    normalize (record (addabs (record (mul r (one_limb radix)) { sign = plus }) (one_limb d)) {
      sign = plus;
    })

shifted_in_lem :
    (radix d : ℕ) (r : NumBig)
    → radix < word_mod
    → d < 16
    → IsValid r
    → IsValid (shifted_in radix d r) × (magnitude (shifted_in radix d r) ≡ magnitude r * radix + d)
shifted_in_lem radix d r hr hd v =
    let radix_valid : IsValid (one_limb radix) = record {
      words = omega (arith, hr);
      trimmed = tt;
    } in
    let digit_valid : IsValid (one_limb d) = record { words = omega (arith, hd); trimmed = tt } in
    let product = record (mul r (one_limb radix)) { sign = plus } in
    let mul_valid = mul-IsValid r (one_limb radix) v radix_valid in
    let product_valid : IsValid product = record {
      words = mul_valid.words;
      trimmed = mul_valid.trimmed;
    } in
    let sum_valid = addabs-IsValid product (one_limb d) product_valid digit_valid in
    (
      normalize-IsValid plus (addabs product (one_limb d)).limbs sum_valid.words
          (length_pos (addabs product (one_limb d)).limbs sum_valid.trimmed),
      omega (
        arith,
        magnitude-normalize (record (addabs product (one_limb d)) { sign = plus }),
        magnitude-addabs_of_le product (one_limb d) product_valid digit_valid
            (length_pos product.limbs product_valid.trimmed),
        magnitude-mul r (one_limb radix) v radix_valid,
      ),
    )

read_digits_lem :
    (radix : ℕ) (cs : List ℕ) (r : NumBig)
    → radix < word_mod
    → IsValid r
    → Represents (number_of radix cs (magnitude r)) (read_digits radix cs r)
unfolding read_digits
read_digits_lem radix [] r hr v = (v, refl)
read_digits_lem radix (c ∷ cs) r hr v = elim (Option-cases (digit_value c)) [
  | inl bad ↦ rw (digit_of-digit_value c, bad) tt
  | inr (d, good) ↦
      let step = shifted_in_lem radix d r hr (digit_value-lt c d good) v in
      rw (digit_of-digit_value c, good, ← step.1)
        (read_digits_lem radix cs (shifted_in radix d r) hr step.0)
]

Represents-some :
    (n : ℕ) (p : Option NumBig)
    → Represents (some n) p
    → (b : NumBig) × (p ≡ some b) × IsValid b × (magnitude b ≡ n)
Represents-some n none r = absurd r
Represents-some n (some b) r = (b, refl, r.0, r.1)

Represents-none : (p : Option NumBig) → Represents none p → p ≡ none
Represents-none none r = refl
Represents-none (some b) r = absurd r

-- The sign is put on a magnitude that is not 0.
signed : Sign → NumBig → NumBig
signed s b = record b { sign = if iszero b then plus else s }

signed-to_int : (s : Sign) (b : NumBig) → to_int (signed s b) ≡ with_sign s (magnitude b)
unfolding signed
signed-to_int plus b = ground (arith, iszero_iff b)
signed-to_int minus b = elim (Bool-cases (iszero b)) [
  | inl gone ↦ rw (gone, (iszero_iff b).0 gone)
  | inr left ↦ rw left
]

-- For a radix that fits a word and characters that stand for a number in it, `bigfromstr`
-- succeeds with a valid bignum, which is that number with the given sign.
pub bigfromstr-number :
    (cs : List ℕ) (radix n : ℕ) (s : Sign)
    → radix < word_mod
    → number_of radix cs 0 ≡ some n
    → (b : NumBig) × (bigfromstr cs radix s ≡ some b) × IsValid b × (to_int b ≡ with_sign s n)
unfolding bigfromstr signed
bigfromstr-number cs radix n s hr h =
    let zero_valid : IsValid (one_limb 0) = record { words = omega arith; trimmed = tt } in
    let read = read_digits_lem radix cs (one_limb 0) hr zero_valid in
    let (b, run, valid, same) =
      Represents-some n (read_digits radix cs (one_limb 0)) (rw (← h) read) in
    (
      signed s b,
      rw run,
      record { words = valid.words; trimmed = valid.trimmed },
      signed-to_int s b ∙ ap (with_sign s) same,
    )

-- For a radix that fits a word, `bigfromstr` is an error if some character is no digit.
bigfromstr-error :
    (cs : List ℕ) (radix : ℕ) (s : Sign)
    → radix < word_mod
    → number_of radix cs 0 ≡ none
    → bigfromstr cs radix s ≡ none
unfolding bigfromstr
bigfromstr-error cs radix s hr h =
    let zero_valid : IsValid (one_limb 0) = record { words = omega arith; trimmed = tt } in
    let read = read_digits_lem radix cs (one_limb 0) hr zero_valid in
    rw (Represents-none (read_digits radix cs (one_limb 0)) (rw (← h) read))

number_of-append :
    (radix : ℕ) (xs ys : List ℕ) (acc : ℕ)
    → number_of radix (xs ++ ys) acc ≡ (number_of radix xs acc >>= number_of radix ys)
number_of-append radix [] ys acc = refl
number_of-append radix (x ∷ xs) ys acc = elim (Option-cases (digit_value x)) [
  | inl bad ↦ rw bad
  | inr (d, good) ↦ rw good (number_of-append radix xs ys (acc * radix + d))
]

digit_value-decimal : (c : ℕ) → b'0' ≤ c → c ≤ b'9' → digit_value c ≡ some (c - b'0')
digit_value-decimal c lo hi = ground arith

number_of-reverse : (ds : List ℕ) → IsDigits ds → number_of 10 (reverse ds) 0 ≡ some (low_first ds)
number_of-reverse [] h = refl
number_of-reverse (c ∷ cs) h =
    rw
      (
        reverse-cons,
        number_of-append 10 (reverse cs) (c ∷ []) 0,
        number_of-reverse cs h.1,
        digit_value-decimal c h.0.0 h.0.1,
      )
      (ap (λ t. some t) (omega arith))

-- For a valid bignum that is not 0, `tostr` prints the sign and then digits that `bigfromstr`,
-- given base 10 and the sign, reads back as a valid bignum with the same integer.
pub bigfromstr-tostr :
    (a : NumBig)
    → IsValid a
    → magnitude a ≢ 0
    → (ds : List ℕ) × (b : NumBig) × (tostr a ≡ minus_sign a.sign ++ ds)
      × (bigfromstr ds 10 a.sign ≡ some b)
      × IsValid b
      × (to_int b ≡ to_int a)
bigfromstr-tostr a v h =
    let p = tostr-Prints a v h in
    let (b, run, valid, same) =
      bigfromstr-number (reverse p.digits) 10 (low_first p.digits) a.sign (omega arith)
        (number_of-reverse p.digits p.are_digits) in
    (reverse p.digits, b, p.printed, run, valid, same ∙ ap (with_sign a.sign) p.number)
