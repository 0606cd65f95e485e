-- ===== src/HashTable/Tests.antt =====
-- The theorems on the sizes of a table at a concrete one.
use mathlib.Core.Path.{refl}
use dummyscheme.Common.{[], ◌∷◌, true, false, Bool, List, ◌≡◌, arith}
use dummyscheme.Common.Int.{pos}
use dummyscheme.HashTable.{
  integer, other, Node, numuse, count_array, count_slice, count_nodes, arrayindex, log2i,
  computesizes, size_loop,
}
use dummyscheme.HashTable.Best.{IsOptimal, numuse-IsOptimal}

-- Slots 1 to 4 of the array, the third one free, and a hash part with 5, 6 and a string.
abbrev slots : List Bool
slots = true ∷ true ∷ false ∷ true ∷ []

abbrev nodes : List Node
nodes =
    record { key = integer (pos 5); live = true }
    ∷ record { key = integer (pos 6); live = true }
    ∷ record { key = other 0; live = true }
    ∷ []

numuse-IsOptimal_example : IsOptimal slots nodes (numuse slots nodes)
numuse-IsOptimal_example = numuse-IsOptimal slots nodes (omega arith) (omega arith)

sizes_found : numuse slots nodes ≡ (8, 1)
unfolding numuse count_array count_slice count_nodes arrayindex log2i computesizes size_loop
sizes_found = refl
