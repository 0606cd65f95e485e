-- ===== src/ListAccess/Tests.antt =====
-- The theorems on reading lists at a concrete heap.
use dummyscheme.Common.{some, ◌∷◌, ℕ, List, reverse, refl, ◌≡◌, arith, get_elem?, []}
use dummyscheme.ListLength.{Value, Pair, null, pair, other}
use dummyscheme.ListAccess.{scm_stub_reverse}
use dummyscheme.ListAccess.Elements.{Elements}
use dummyscheme.ListAccess.Reverse.{scm_stub_reverse-reverse}

abbrev first : Pair
first = record { car = other 10; cdr = pair 0 }

abbrev second : Pair
second = record { car = other 20; cdr = null }

abbrev heap : List Pair
heap = second ∷ first ∷ []

abbrev elements : List Value
elements = other 10 ∷ other 20 ∷ []

heap-Elements : Elements heap (pair 1) elements
heap-Elements = (1, first, refl, refl, refl, (0, second, refl, refl, refl, refl))

scm_stub_reverse-reverse_example :
    (after : List Pair) × (w : Value) × (scm_stub_reverse 2 heap (pair 1) ≡ some (after, w))
    × Elements after w (reverse elements)
    × ((a : ℕ) → (p : Pair) → get_elem? heap a ≡ some p → get_elem? after a ≡ some p)
scm_stub_reverse-reverse_example =
    scm_stub_reverse-reverse 2 heap (pair 1) elements (omega arith) heap-Elements
