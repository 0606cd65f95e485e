-- ===== src/Bignum.antt =====
-- vm.h and vm.cpp, `struct NumBigObj`: an arbitrary-precision integer as a sign and an array of
-- 64-bit limbs, the least significant first. `len` is the length of the list, and every object has
-- at least one limb. The lengths fit an `int`: memory bounds them. Here stand the representation,
-- `normalize`, `iszero`, `cmpabs`, `cmp` and `copy`; the operations are in the child modules.
mod Tests
pub mod Value
pub mod Order
pub mod Add
pub mod Mul
pub mod Shift
pub mod Div
pub mod Decimal
use dummyscheme.Common.{
  ℕ, zero, suc, ◌+◌, ◌-◌, ◌*◌, ◌%◌, ◌<◌, ◌≤◌, ◌≢◌, Bool, true, false, ◌&&◌, List, [], ◌∷◌, compare,
  Ordering, length, All, word_mod, ◌==◌, if◌then◌else◌,
}
use dummyscheme.Common.Int.{ℤ, pos, sub_ℕ}

-- `char sign`, which is 1 or -1.
pub data Sign : Type 0 where
  plus minus : Sign

unfoldable pub negate : Sign → Sign
negate plus = minus
negate minus = plus

-- `sign == other->sign`
unfoldable pub same_sign : Sign → Sign → Bool
same_sign plus plus = true
same_sign plus minus = false
same_sign minus plus = false
same_sign minus minus = true

pub record NumBig : Type 0 where
  pub sign : Sign
  pub limbs : List ℕ

-- The number that the limbs stand for.
abbrev pub value : List ℕ → ℕ
value [] = 0
value (x ∷ xs) = x + word_mod * value xs

-- The weight of the limb at an index: `word_mod ^ n`, as a recursion.
abbrev pub weight : ℕ → ℕ
weight zero = 1
weight (suc n) = word_mod * weight n

-- Each limb is a 64-bit word.
abbrev pub IsWords : List ℕ → Type 0
IsWords = All (λ x. x < word_mod)

-- There is a limb, and the highest is not 0 unless it is the only one.
abbrev pub IsTrimmed : List ℕ → Type 0
IsTrimmed [] = ⊥
IsTrimmed (x ∷ []) = Unit
IsTrimmed (x ∷ y ∷ []) = y ≢ 0
IsTrimmed (x ∷ y ∷ z ∷ r) = IsTrimmed (y ∷ z ∷ r)

-- What every object satisfies between two calls.
pub record IsValid (a : NumBig) : Type 0 where
  pub words : IsWords a.limbs
  pub trimmed : IsTrimmed a.limbs

-- The magnitude, and the integer that an object stands for.
abbrev pub magnitude : NumBig → ℕ
magnitude a = value a.limbs

abbrev pub with_sign : Sign → ℕ → ℤ
with_sign plus n = pos n
with_sign minus n = sub_ℕ 0 n

abbrev pub to_int : NumBig → ℤ
to_int a = with_sign a.sign (magnitude a)

-- The loop of `normalize`, which drops zero limbs from the top and keeps the last limb.
-- `drop_zero x xs` is one test of it, for the limb above `x`.
drop_zero : ℕ → List ℕ → List ℕ
drop_zero x [] = x ∷ []
drop_zero x (y ∷ []) = if y == 0 then x ∷ [] else x ∷ y ∷ []
drop_zero x (y ∷ z ∷ r) = x ∷ y ∷ z ∷ r

pub trim : List ℕ → List ℕ
unfolding drop_zero
trim [] = []
trim (x ∷ xs) = drop_zero x (trim xs)

-- `if (len == 1 && data[0] == 0) sign = 1;`
pub normal_sign : Sign → List ℕ → Sign
normal_sign s [] = s
normal_sign s (x ∷ []) = if x == 0 then plus else s
normal_sign s (x ∷ y ∷ r) = s

unfoldable pub normalize : NumBig → NumBig
unfolding trim normal_sign
normalize a = let kept = trim a.limbs in record { sign = normal_sign a.sign kept; limbs = kept }

pub iszero_limbs : List ℕ → Bool
iszero_limbs [] = true
iszero_limbs (x ∷ xs) = x == 0 && iszero_limbs xs

unfoldable pub iszero : NumBig → Bool
unfolding iszero_limbs
iszero a = iszero_limbs a.limbs

-- The loop of `cmpabs` over two arrays of one length, from the top: the limb at an index decides
-- if those above it are equal.
pub cmp_limbs : List ℕ → List ℕ → Ordering
cmp_limbs [] ys = Ordering.eq
cmp_limbs (x ∷ xs) [] = Ordering.eq
cmp_limbs (x ∷ xs) (y ∷ ys) = elim (cmp_limbs xs ys) [
  | Ordering.eq ↦ compare x y
  | Ordering.lt ↦ Ordering.lt
  | Ordering.gt ↦ Ordering.gt
]

-- `cmpabs`: 1, 0 and -1 are `gt`, `eq` and `lt`.
unfoldable pub cmpabs : NumBig → NumBig → Ordering
unfolding cmp_limbs
cmpabs a b = elim (compare (length a.limbs) (length b.limbs)) [
  | Ordering.eq ↦ cmp_limbs a.limbs b.limbs
  | Ordering.lt ↦ Ordering.lt
  | Ordering.gt ↦ Ordering.gt
]

-- `-m` on the result of a comparison.
unfoldable pub flip : Ordering → Ordering
flip Ordering.lt = Ordering.gt
flip Ordering.eq = Ordering.eq
flip Ordering.gt = Ordering.lt

-- `sign > 0 ? 1 : -1`
unfoldable pub of_sign : Sign → Ordering
of_sign plus = Ordering.gt
of_sign minus = Ordering.lt

unfoldable pub cmp : NumBig → NumBig → Ordering
unfolding iszero same_sign flip of_sign negate
cmp a b =
    if iszero a && iszero b
    then Ordering.eq
    else if iszero a
    then of_sign (negate b.sign)
    else if iszero b
    then of_sign a.sign
    else if same_sign a.sign b.sign
    then (elim b.sign [ plus ↦ cmpabs a b | minus ↦ flip (cmpabs a b) ])
    else of_sign a.sign

-- A new object with the same sign and limbs.
unfoldable pub copy : NumBig → NumBig
copy a = record { sign = a.sign; limbs = a.limbs }
