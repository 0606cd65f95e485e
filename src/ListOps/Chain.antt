-- ===== src/ListOps/Chain.antt =====
-- Lists in a heap as the addresses of their pairs, and the writes of cdrs.
use mathlib.Core.Path.{subst}
use dummyscheme.Common.{
  none, some, zero, suc, ◌∷◌, ℕ, List, length, get_elem?, refl, inl, inr, ◌≡◌, All, ◌<◌, ◌≢◌, arith,
  sym, get_elem?-set_self, Option-cases, get_elem?-set_ne, length-set, Option, Bool-cases, ◌==◌,
  ==→eq, ==-false→ne, [], set, ap, ◌∙◌,
}
use dummyscheme.ListLength.{Value, Pair, pair, cdr_of}
use dummyscheme.ListOps.{set_cdr}

-- The value begins a list whose pairs are at the addresses, and ends in `end`.
abbrev pub Chain : List Pair → Value → List ℕ → Value → Type 0
Chain heap v [] end = v ≡ end
Chain heap v (a ∷ later) end =
    (v ≡ pair a) × (a < length heap) × Chain heap (cdr_of heap a) later end

-- The address is none of them, and each is none of those after it.
abbrev pub Misses : ℕ → List ℕ → Type 0
Misses a addresses = All (λ b. a ≢ b) addresses

abbrev pub Distinct : List ℕ → Type 0
Distinct [] = Unit
Distinct (a ∷ later) = Misses a later × Distinct later

elem : (heap : List Pair) (a : ℕ) → a < length heap → (p : Pair) × (get_elem? heap a ≡ some p)
elem [] a h = absurd (omega arith)
elem (p ∷ heap) zero h = (p, refl)
elem (p ∷ heap) (suc a) h = elem heap a (omega arith)

pub cdr_of-set_cdr_self :
    (heap : List Pair) (a : ℕ) (v : Value) → a < length heap → cdr_of (set_cdr heap a v) a ≡ v
unfolding cdr_of set_cdr
cdr_of-set_cdr_self heap a v h =
    let (p, there) = elem heap a h in
    rw (cdr_of, set_cdr, there, get_elem?-set_self heap a p (record { car = p.car; cdr = v }) there)
      refl

pub cdr_of-set_cdr_ne :
    (heap : List Pair) (a b : ℕ) (v : Value) → a ≢ b → cdr_of (set_cdr heap a v) b ≡ cdr_of heap b
unfolding cdr_of set_cdr
cdr_of-set_cdr_ne heap a b v h = elim (Option-cases (get_elem? heap a)) [
  | inl gone ↦ rw (cdr_of, set_cdr, gone) refl
  | inr (p, there) ↦
      rw (cdr_of, set_cdr, there, get_elem?-set_ne heap a b (record { car = p.car; cdr = v }) h)
        refl
]

pub length-set_cdr :
    (heap : List Pair) (a : ℕ) (v : Value) → length (set_cdr heap a v) ≡ length heap
unfolding set_cdr
length-set_cdr heap a v = elim (Option-cases (get_elem? heap a)) [
  | inl gone ↦ rw (set_cdr, gone) refl
  | inr (p, there) ↦ rw (set_cdr, there) (length-set heap a (record { car = p.car; cdr = v }))
]

-- The cars stay.
abbrev pub car_of_pair : Option Pair → Option Value
car_of_pair none = none
car_of_pair (some p) = some p.car

abbrev pub car_at : List Pair → ℕ → Option Value
car_at heap a = car_of_pair (get_elem? heap a)

pub car_at-set_cdr :
    (heap : List Pair) (a b : ℕ) (v : Value) → car_at (set_cdr heap a v) b ≡ car_at heap b
unfolding set_cdr
car_at-set_cdr heap a b v = elim (Option-cases (get_elem? heap a)) [
  | inl gone ↦ rw (set_cdr, gone) refl
  | inr (p, there) ↦
      let written : Pair = record { car = p.car; cdr = v } in
      let opened : set_cdr heap a v ≡ set heap a written = rw (set_cdr, there) refl in
      elim (Bool-cases (a == b)) [
        | inl same ↦
            let e = ==→eq a b same in
            ap (λ t. car_at t b) opened
            ∙ ap (λ n. car_of_pair (get_elem? (set heap a written) n)) (sym e)
            ∙ ap car_of_pair (get_elem?-set_self heap a p written there)
            ∙ sym (ap car_of_pair there)
            ∙ ap (car_at heap) e
        | inr differ ↦
            ap (λ t. car_at t b) opened
            ∙ ap car_of_pair (get_elem?-set_ne heap a b written (==-false→ne a b differ))
      ]
]

-- A write elsewhere keeps a list.
pub Chain-set_cdr :
    (heap : List Pair) (a : ℕ) (w v : Value) (addresses : List ℕ) (end : Value)
    → Misses a addresses
    → Chain heap v addresses end
    → Chain (set_cdr heap a w) v addresses end
Chain-set_cdr heap a w v [] end miss h = h
Chain-set_cdr heap a w v (b ∷ later) end miss h = (
  h.0,
  omega (arith, h.1, length-set_cdr heap a w),
  subst (λ u. Chain (set_cdr heap a w) u later end) (sym (cdr_of-set_cdr_ne heap a b w miss.0))
      (Chain-set_cdr heap a w (cdr_of heap b) later end miss.1 h.2),
)

-- Two lists without a common pair.
abbrev pub Apart : List ℕ → List ℕ → Type 0
Apart [] done = Unit
Apart (a ∷ later) done = Misses a done × Apart later done
