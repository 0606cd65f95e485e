-- ===== src/ListOps/Reverse.antt =====
-- `reverselist` reverses a list in place.
use mathlib.Core.Path.{subst}
use dummyscheme.Common.{
  some, zero, suc, ◌∷◌, ℕ, List, length, refl, reverse, ◌≡◌, ◌<◌, arith, ◌≤◌, sym, ◌∙◌, [],
}
use dummyscheme.ListLength.{Value, Pair, null, pair, cdr_of, listp}
use dummyscheme.ListOps.{set_cdr, reverse_loop, reverselist}
use dummyscheme.ListLength.Proper.{IsList, thlength_lem}
use dummyscheme.ListOps.Chain.{
  Chain, Misses, Distinct, Apart, cdr_of-set_cdr_self, length-set_cdr, car_at, car_at-set_cdr,
  Chain-set_cdr,
}

Apart-cons :
    (a : ℕ) (later done : List ℕ) → Misses a later → Apart later done → Apart later (a ∷ done)
Apart-cons a [] done miss apart = tt
Apart-cons a (b ∷ later) done miss apart =
    ((λ e. miss.0 (sym e), apart.0), Apart-cons a later done miss.1 apart.1)

-- The addresses in reverse order, before others.
abbrev pub rev_onto : List ℕ → List ℕ → List ℕ
rev_onto [] done = done
rev_onto (a ∷ later) done = rev_onto later (a ∷ done)

reverse_loop_lem :
    (addresses : List ℕ) (fuel : ℕ) (heap : List Pair) (v b : Value) (done : List ℕ)
    → length addresses ≤ fuel
    → Distinct addresses
    → Apart addresses done
    → Chain heap v addresses null
    → Chain heap b done null
    → (after : List Pair) × (w : Value) × (reverse_loop fuel heap v b ≡ some (after, w))
      × Chain after w (rev_onto addresses done) null
      × ((x : ℕ) → car_at after x ≡ car_at heap x)
unfolding reverse_loop
reverse_loop_lem [] fuel heap v b done enough distinct apart h k =
    (heap, b, rw h refl, k, λ x. refl)
reverse_loop_lem (a ∷ later) zero heap v b done enough distinct apart h k = absurd (omega arith)
reverse_loop_lem (a ∷ later) (suc fuel) heap v b done enough distinct apart h k =
    let new = set_cdr heap a b in
    let rest = Chain-set_cdr heap a b (cdr_of heap a) later null distinct.0 h.2 in
    let head : Chain new (pair a) (a ∷ done) null = (
      refl,
      omega (arith, h.1, length-set_cdr heap a b),
      subst (λ u. Chain new u done null) (sym (cdr_of-set_cdr_self heap a b h.1))
          (Chain-set_cdr heap a b b done null apart.0 k),
    ) in
    let (after, w, run, chain, cars) =
      reverse_loop_lem later fuel new (cdr_of heap a) (pair a) (a ∷ done) (omega arith) distinct.1
        (Apart-cons a later done distinct.0 apart.1) rest head in
    (after, w, rw (h.0, run) refl, chain, λ x. cars x ∙ car_at-set_cdr heap a x b)

Apart-nil : (addresses : List ℕ) → Apart addresses []
Apart-nil [] = tt
Apart-nil (a ∷ later) = (tt, Apart-nil later)

Chain-IsList :
    (heap : List Pair) (v : Value) (addresses : List ℕ)
    → Chain heap v addresses null
    → IsList heap v (length addresses)
Chain-IsList heap v [] h = subst (λ u. IsList heap u 0) (sym h) tt
Chain-IsList heap v (a ∷ later) h =
    subst (λ u. IsList heap u (suc (length later))) (sym h.0)
      (Chain-IsList heap (cdr_of heap a) later h.2)

-- For a proper list without a pair that occurs twice, and more rounds than it has pairs,
-- `reverselist` succeeds and gives a proper list of the same pairs in reverse order, and the car
-- of every pair stays.
pub reverselist-reverse :
    (fuel : ℕ) (heap : List Pair) (v : Value) (addresses : List ℕ)
    → length addresses < fuel
    → Distinct addresses
    → Chain heap v addresses null
    → (after : List Pair) × (w : Value) × (reverselist fuel heap v ≡ some (after, w))
      × Chain after w (reverse addresses) null
      × ((x : ℕ) → car_at after x ≡ car_at heap x)
unfolding reverselist listp
reverselist-reverse fuel heap v [] enough distinct h = (heap, null, rw h refl, refl, λ x. refl)
reverselist-reverse fuel heap v (a ∷ later) enough distinct h =
    let proper =
      thlength_lem heap (pair a) fuel (suc (length later))
        (Chain-IsList heap (pair a) (a ∷ later) (refl, h.1, h.2)) (omega (arith, enough)) in
    let new = set_cdr heap a null in
    let rest = Chain-set_cdr heap a null (cdr_of heap a) later null distinct.0 h.2 in
    let head : Chain new (pair a) (a ∷ []) null =
      (refl, omega (arith, h.1, length-set_cdr heap a null), cdr_of-set_cdr_self heap a null h.1) in
    let (after, w, run, chain, cars) =
      reverse_loop_lem later fuel new (cdr_of heap a) (pair a) (a ∷ []) (omega (arith, enough))
        distinct.1 (Apart-cons a later [] distinct.0 (Apart-nil later)) rest head in
    (
      after,
      w,
      rw (h.0, reverselist, proper, run) refl,
      chain,
      λ x. cars x ∙ car_at-set_cdr heap a x null,
    )
