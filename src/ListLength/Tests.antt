-- ===== src/ListLength/Tests.antt =====
-- `thlength` on a list of two pairs.
use dummyscheme.Common.{some, [], ◌∷◌, List, ◌≡◌, arith, refl}
use dummyscheme.ListLength.{
  null, pair, other, len, minus_one, cdr_of, thlength, Pair, race, look, next, slot, same_pointer,
}
use dummyscheme.ListLength.Proper.{IsList, thlength_lem}

-- (1 2), at the addresses 1 and 0.
abbrev two_pairs : List Pair
two_pairs = record { car = other 2; cdr = null } ∷ record { car = other 1; cdr = pair 0 } ∷ []

two_pairs-IsList : IsList two_pairs (pair 1) 2
unfolding cdr_of
two_pairs-IsList = tt

thlength_lem_example : thlength 3 two_pairs (pair 1) ≡ some (len 2)
thlength_lem_example = thlength_lem two_pairs (pair 1) 3 2 two_pairs-IsList (omega arith)

-- A pair whose cdr is itself.
abbrev circular : List Pair
circular = record { car = other 1; cdr = pair 0 } ∷ []

thlength-circular : thlength 3 circular (pair 0) ≡ some minus_one
unfolding thlength race look next slot cdr_of same_pointer
thlength-circular = refl
