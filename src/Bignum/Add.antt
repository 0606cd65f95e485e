-- ===== src/Bignum/Add.antt =====
-- `NumBigObj::addabs`, `subabs`, `add` and `sub` (vm.cpp): schoolbook addition and subtraction of
-- magnitudes with a carry, and the signed operations on top of them. `sub` flips the sign of the
-- object `other` while `add` runs and flips it back, so it is a function of the objects' store.
pub mod Magnitude
pub mod Signed
pub mod Aliased
use dummyscheme.Common.{
  ℕ, zero, suc, ◌+◌, ◌-◌, ◌*◌, ◌%◌, Bool, ◌&&◌, ◌||◌, Option, some, List, [], ◌∷◌, Ordering,
  get_elem?, set, u64, word_mod, ltb, ◌==◌, if◌then◌else◌, ◌>>=◌,
}
use dummyscheme.Bignum.{Sign, plus, NumBig, negate, same_sign, normalize, iszero, cmpabs, copy}

-- `(i < other->len) ? other->data[i] : 0` at the first index of the rest of an array, and the
-- rest above it.
abbrev pub limb : List ℕ → ℕ
limb [] = 0
limb (y ∷ ys) = y

abbrev pub above : List ℕ → List ℕ
above [] = []
above (y ∷ ys) = ys

-- `(sum < ua) || (sum == ua && carry > 0) ? 1 : 0`
pub add_carry : ℕ → ℕ → ℕ → ℕ
add_carry ua sum carry = if ltb sum ua || sum == ua && ltb 0 carry then 1 else 0

-- The loop of `addabs` from an index on, with the carry into it. It runs over the limbs of `this`;
-- the result has one limb more, zero unless a carry is left.
pub add_limbs : List ℕ → List ℕ → ℕ → List ℕ
unfolding add_carry
add_limbs [] ys carry = (if ltb 0 carry then carry else 0) ∷ []
add_limbs (x ∷ xs) ys carry =
    let sum = u64 (x + limb ys + carry) in sum ∷ add_limbs xs (above ys) (add_carry x sum carry)

unfoldable pub addabs : NumBig → NumBig → NumBig
unfolding add_limbs
addabs a b = normalize (record { sign = plus; limbs = add_limbs a.limbs b.limbs 0 })

-- `(ua < ub) || (ua == ub && borrow > 0) ? 1 : 0`
pub sub_borrow : ℕ → ℕ → ℕ → ℕ
sub_borrow ua ub borrow = if ltb ua ub || ua == ub && ltb 0 borrow then 1 else 0

-- The loop of `subabs` from an index on, with the borrow out of it.
pub sub_limbs : List ℕ → List ℕ → ℕ → List ℕ
unfolding sub_borrow
sub_limbs [] ys borrow = []
sub_limbs (x ∷ xs) ys borrow =
    u64 (x + 2 * word_mod - limb ys - borrow)
    ∷ sub_limbs xs (above ys) (sub_borrow x (limb ys) borrow)

unfoldable pub subabs : NumBig → NumBig → NumBig
unfolding sub_limbs
subabs a b = normalize (record { sign = plus; limbs = sub_limbs a.limbs b.limbs 0 })

unfoldable pub add : NumBig → NumBig → NumBig
add a b =
    if iszero a
    then copy b
    else if iszero b
    then a
    else if same_sign a.sign b.sign
    then record (addabs a b) { sign = a.sign }
    else (elim (cmpabs a b) [
      | Ordering.lt ↦ record (subabs b a) { sign = b.sign }
      | Ordering.eq ↦ record (subabs a b) { sign = a.sign }
      | Ordering.gt ↦ record (subabs a b) { sign = a.sign }
    ])

-- `x->sign = -x->sign` on the object at a place of the store.
unfoldable pub flip_sign : List NumBig → ℕ → Option (List NumBig)
flip_sign store i = do x ← get_elem? store i; some (set store i (record x { sign = negate x.sign }))

-- `this->sub(other)`: the result, and the store after the guard has flipped the sign back.
unfoldable pub sub : List NumBig → ℕ → ℕ → Option (NumBig × List NumBig)
sub store this other = do
  flipped ← flip_sign store other
  a ← get_elem? flipped this
  b ← get_elem? flipped other
  restored ← flip_sign flipped other
  some (add a b, restored)
