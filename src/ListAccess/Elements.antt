-- ===== src/ListAccess/Elements.antt =====
-- The proper lists in a heap by their elements.
use dummyscheme.Common.{some, [], ◌∷◌, ℕ, List, get_elem?, ◌≡◌, refl}
use dummyscheme.ListLength.{Value, Pair, null, pair, cdr_of}
use dummyscheme.ListAccess.{car_of}

-- The value begins a proper list of the elements.
abbrev pub Elements : List Pair → Value → List Value → Type 0
Elements heap v [] = v ≡ null
Elements heap v (x ∷ xs) =
    (a : ℕ) × (p : Pair) × (v ≡ pair a)
    × (get_elem? heap a ≡ some p)
    × (p.car ≡ x)
    × Elements heap p.cdr xs

-- Every pair of the first heap is in the second.
abbrev pub Extends : List Pair → List Pair → Type 0
Extends heap after = (a : ℕ) → (p : Pair) → get_elem? heap a ≡ some p → get_elem? after a ≡ some p

pub Elements-Extends :
    (heap after : List Pair) (v : Value) (xs : List Value)
    → Extends heap after
    → Elements heap v xs
    → Elements after v xs
Elements-Extends heap after v [] more h = h
Elements-Extends heap after v (x ∷ xs) more (a, p, e, there, front, later) =
    (a, p, e, more a p there, front, Elements-Extends heap after p.cdr xs more later)

pub car_of_lem :
    (heap : List Pair) (a : ℕ) (p : Pair) → get_elem? heap a ≡ some p → car_of heap a ≡ p.car
unfolding car_of
car_of_lem heap a p there = rw (car_of, there) refl

pub cdr_of_lem :
    (heap : List Pair) (a : ℕ) (p : Pair) → get_elem? heap a ≡ some p → cdr_of heap a ≡ p.cdr
unfolding cdr_of
cdr_of_lem heap a p there = rw (cdr_of, there) refl
