-- ===== src/Exact/Convert.antt =====
-- The conversions between fixnums and bignums keep the integer.
use dummyscheme.Common.{
  [], ◌∷◌, true, List, ◌≡◌, arith, ℕ, ◌<◌, ◌^◌, Bool-cases, ◌∙◌, inl, ap, sym, inr,
}
use dummyscheme.Common.Int.{pos, negsuc, ℤ}
use dummyscheme.Exact.{fixnum, bignum, Num, numbigfromi, one_small_limb, bigsetvt}
use mathlib.Core.Bool.{false≢true}
use dummyscheme.Bignum.{plus, minus, NumBig, to_int, IsValid, normalize, value, Sign, with_sign}
use dummyscheme.Fixnum.{IsInt}
use dummyscheme.Bignum.Add.{limb}
use dummyscheme.Bignum.Value.{normalize-IsValid, length_pos, to_int-normalize}

-- The integer that a value stands for.
abbrev pub num_int : Num → ℤ
num_int (fixnum a) = a
num_int (bignum a) = to_int a

-- A fixnum in range, or a well-formed bignum.
abbrev pub IsNum : Num → Type 0
IsNum (fixnum a) = IsInt a
IsNum (bignum a) = IsValid a

pub numbigfromi-to_int : (a : ℤ) → to_int (numbigfromi a) ≡ a
unfolding numbigfromi
numbigfromi-to_int (pos n) = ground arith
numbigfromi-to_int (negsuc n) = ground arith

pub numbigfromi-IsValid : (a : ℤ) → IsInt a → IsValid (numbigfromi a)
unfolding numbigfromi
numbigfromi-IsValid (pos n) h = record { words = omega (arith, h); trimmed = tt }
numbigfromi-IsValid (negsuc n) h = record { words = omega (arith, h); trimmed = tt }

one_small_limb_lem :
    (xs : List ℕ) → one_small_limb xs ≡ true → (value xs ≡ limb xs) × (limb xs < 2 ^ 63)
unfolding one_small_limb
one_small_limb_lem [] h = absurd (false≢true h)
one_small_limb_lem (x ∷ []) h = ground arith
one_small_limb_lem (x ∷ y ∷ r) h = absurd (false≢true h)

small_IsInt : (s : Sign) (n : ℕ) → n < 2 ^ 63 → IsInt (with_sign s n)
small_IsInt plus n h = omega (arith, h)
small_IsInt minus n h = ground arith

-- Storing a valid bignum keeps the integer, and the value stored is a fixnum in range or a valid
-- bignum.
pub num_int-bigsetvt :
    (a : NumBig) → IsValid a → (num_int (bigsetvt a) ≡ to_int a) × IsNum (bigsetvt a)
unfolding bigsetvt
num_int-bigsetvt a v = elim (Bool-cases (one_small_limb (normalize a).limbs)) [
  | inl small ↦
      let (same, below) = one_small_limb_lem (normalize a).limbs small in
      rw small (
        ap (with_sign (normalize a).sign) (sym same) ∙ to_int-normalize a,
        small_IsInt (normalize a).sign (limb (normalize a).limbs) below,
      )
  | inr large ↦
      rw large (
        to_int-normalize a,
        normalize-IsValid a.sign a.limbs v.words (length_pos a.limbs v.trimmed),
      )
]
