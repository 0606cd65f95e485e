-- ===== src/Bignum/Add/Aliased.antt =====
-- `sub` on a store of objects: two distinct objects give the difference and are left as they
-- were; one object taken from itself gives twice its negation.
use native.Mathlib.Nat.{le_refl}
use dummyscheme.Common.{
  ℕ, ◌≢◌, ◌≡◌, List, arith, some, get_elem?, get_elem?-set_ne, sym, get_elem?-set_self, set-set,
  set-get_elem?, set,
}
use dummyscheme.Common.Int.{◌-ℤ◌, pos, add-neg}
use dummyscheme.Bignum.{NumBig, negate, IsValid, to_int}
use dummyscheme.Bignum.Add.{sub, add, flip_sign}
use dummyscheme.Bignum.Add.Signed.{Fits, to_int-add, add-IsValid}

unfoldable pub negated : NumBig → NumBig
negated b = record b { sign = negate b.sign }

to_int-negated : (b : NumBig) → to_int (negated b) ≡ pos 0 -ℤ to_int b
unfolding negated negate ◌-ℤ◌
to_int-negated b = ground arith

negated-IsValid : {b : NumBig} → IsValid b → IsValid (negated b)
unfolding negated
negated-IsValid v = record { words = v.words; trimmed = v.trimmed }

negated-negated : (b : NumBig) → negated (negated b) ≡ b
unfolding negated negate
negated-negated b = ground arith

flip_sign_lem :
    (store : List NumBig) (i : ℕ) (b : NumBig)
    → get_elem? store i ≡ some b
    → flip_sign store i ≡ some (set store i (negated b))
unfolding flip_sign negated
flip_sign_lem store i b h = rw h

module _ (store : List NumBig) (i j : ℕ) (a b : NumBig) (at_i : get_elem? store i ≡ some a)
    (at_j : get_elem? store j ≡ some b) where
  sub_distinct : i ≢ j → sub store i j ≡ some (add a (negated b), store)
  unfolding sub
  sub_distinct ne =
      let there = get_elem?-set_self store j b (negated b) at_j in
      rw
        (
          flip_sign_lem store j b at_j,
          get_elem?-set_ne store j i (negated b) (λ e. ne (sym e)),
          at_i,
          there,
          flip_sign_lem (set store j (negated b)) j (negated b) there,
        )
        (rw (negated-negated, set-set, set-get_elem? store j b at_j))

  -- For two distinct valid objects of a store, the first with at least as many limbs as the
  -- second when their signs differ, `sub` gives a valid bignum that is the difference and leaves
  -- the store as it was.
  pub sub_lem :
      i ≢ j
      → IsValid a
      → IsValid b
      → Fits a (negated b)
      → (r : NumBig) × (sub store i j ≡ some (r, store))
        × (to_int r ≡ to_int a -ℤ to_int b)
        × IsValid r
  sub_lem ne v w fits = (
    add a (negated b),
    sub_distinct ne,
    rw (to_int-add a (negated b) v (negated-IsValid w) fits, to_int-negated)
        (add-neg (to_int a) (to_int b)),
    add-IsValid a (negated b) v (negated-IsValid w),
  )

-- For one valid object taken from itself, `sub` gives minus twice its integer and leaves the
-- store as it was.
pub sub_self :
    (store : List NumBig) (i : ℕ) (a : NumBig)
    → get_elem? store i ≡ some a
    → IsValid a
    → (r : NumBig) × (sub store i i ≡ some (r, store)) × (to_int r ≡ pos 0 -ℤ to_int a -ℤ to_int a)
unfolding sub
sub_self store i a at_i v =
    let there = get_elem?-set_self store i a (negated a) at_i in
    let w = negated-IsValid v in
    (
      add (negated a) (negated a),
      rw
          (
            flip_sign_lem store i a at_i,
            there,
            flip_sign_lem (set store i (negated a)) i (negated a) there,
          )
          (rw (negated-negated, set-set, set-get_elem? store i a at_i)),
      rw (to_int-add (negated a) (negated a) w w (λ _. le_refl _), to_int-negated)
          (add-neg (pos 0 -ℤ to_int a) (to_int a)),
    )
