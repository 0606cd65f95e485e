-- ===== src/ListOps/Tests.antt =====
-- The theorems on lists changed in place at a concrete heap.
use dummyscheme.Common.{some, [], ◌∷◌, ◌++◌, ℕ, List, reverse, refl, ◌≡◌, arith}
use dummyscheme.ListLength.{Value, Pair, null, pair, other, cdr_of}
use dummyscheme.ListOps.{reverselist, append}
use dummyscheme.ListOps.Chain.{Chain, car_at}
use dummyscheme.ListOps.Reverse.{reverselist-reverse}
use dummyscheme.ListOps.Append.{append-Chain}

-- The pairs 0 and 2, and the pair 1.
abbrev heap : List Pair
heap =
    record { car = other 10; cdr = pair 2 }
    ∷ record { car = other 11; cdr = null }
    ∷ record { car = other 12; cdr = null }
    ∷ []

abbrev front : List ℕ
front = 0 ∷ 2 ∷ []

front-Chain : Chain heap (pair 0) front null
unfolding cdr_of
front-Chain = (refl, omega arith, (refl, omega arith, refl))

back-Chain : Chain heap (pair 1) (1 ∷ []) null
unfolding cdr_of
back-Chain = (refl, omega arith, refl)

reverselist-reverse_example :
    (after : List Pair) × (w : Value) × (reverselist 3 heap (pair 0) ≡ some (after, w))
    × Chain after w (reverse front) null
    × ((x : ℕ) → car_at after x ≡ car_at heap x)
reverselist-reverse_example =
    reverselist-reverse 3 heap (pair 0) front (omega arith) ((omega arith, tt), (tt, tt))
      front-Chain

append-Chain_example :
    (after : List Pair) × (w : Value) × (append 3 heap (pair 0) (pair 1) ≡ some (after, w))
    × Chain after w (front ++ 1 ∷ []) null
    × ((x : ℕ) → car_at after x ≡ car_at heap x)
append-Chain_example =
    append-Chain 3 heap (pair 0) (pair 1) front (1 ∷ []) (omega arith) ((omega arith, tt), (tt, tt))
      ((omega arith, tt), ((omega arith, tt), tt)) front-Chain back-Chain
