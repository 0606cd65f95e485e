-- ===== src/HashTable/Best.antt =====
-- scmtable.cpp `numuse` and `computesizes` against the slots and nodes themselves: the array part
-- chosen is the best one for the integer keys in use.
use dummyscheme.Common.{
  zero, suc, [], ◌∷◌, List, Bool, ℕ, if◌then◌else◌, take, ◌≡◌, length, ◌+◌, ◌^◌, ◌∙◌, min, ◌≤◌,
  refl, ◌-◌, arith, Bool-cases, ap, ◌*◌, leb, inl, ◌⊎◌, inr, sym,
}
use dummyscheme.HashTable.{Node, numuse, scmmaxbits, count_slice, count_array, sum}
use dummyscheme.HashTable.Sizes.{held_by}
use dummyscheme.HashTable.Counts.{counts, numuse-IsBest, length-count_array}
use dummyscheme.HashTable.Totals.Tally.{fitting, live_nodes, count_nodes-held}
use dummyscheme.HashTable.Totals.{slices-held, slices-sum}

-- The slots in use.
abbrev pub in_use : List Bool → ℕ
in_use [] = 0
in_use (b ∷ slots) = (if b then 1 else 0) + in_use slots

-- The keys in use from 1 to `2 ^ i`: the first slots of the array part, and the live nodes with
-- such a key.
abbrev pub keys_upto : List Bool → List Node → ℕ → ℕ
keys_upto array nodes i = in_use (take (2 ^ i) array) + fitting (2 ^ i) nodes

-- With `na` keys in the array part: the other keys are for the hash part, no array part of a
-- power of two that is filled by half holds more, and the one chosen is filled by half, or has no
-- slot.
abbrev pub IsOptimal : List Bool → List Node → ℕ × ℕ → Type 0
IsOptimal array nodes sizes =
    (na : ℕ) × (sizes.1 ≡ in_use array + live_nodes nodes - na)
    × ((i : ℕ) → 2 ^ i ≤ 2 * keys_upto array nodes i → keys_upto array nodes i ≤ na)
    × (((sizes.0 ≡ 0) × (na ≡ 0))
        ⊎ ((i : ℕ) × (sizes.0 ≡ 2 ^ i) × (na ≡ keys_upto array nodes i) × (2 ^ i ≤ 2 * na)))

count_slice-suc :
    (b : Bool) (array : List Bool) (i n : ℕ)
    → count_slice (b ∷ array) (suc i) n ≡ count_slice array i n
unfolding count_slice
count_slice-suc b array i zero = refl
count_slice-suc b array i (suc n) = let rest = count_slice-suc b array (suc i) n in rw rest refl

count_slice-nil : (i n : ℕ) → count_slice [] i n ≡ 0
unfolding count_slice
count_slice-nil i zero = refl
count_slice-nil i (suc n) = count_slice-nil (suc i) n

count_slice-in_use : (array : List Bool) (n : ℕ) → count_slice array 0 n ≡ in_use (take n array)
unfolding count_slice
count_slice-in_use array zero = refl
count_slice-in_use [] (suc n) = count_slice-nil 1 n
count_slice-in_use (b ∷ array) (suc n) =
    let rest = count_slice-suc b array 0 n ∙ count_slice-in_use array n in ground (arith, rest)

take-whole {ℓ} : {A : Type ℓ} (n : ℕ) (xs : List A) → length xs ≤ n → take n xs ≡ xs
take-whole zero [] h = refl
take-whole zero (x ∷ xs) h = absurd (omega arith)
take-whole (suc n) [] h = refl
take-whole (suc n) (x ∷ xs) h = ap (λ t. x ∷ t) (take-whole n xs (omega arith))

take-min :
    (n : ℕ) (array : List Bool) → in_use (take (min n (length array)) array) ≡ in_use (take n array)
take-min n array = elim (Bool-cases (leb n (length array))) [
  | inl inner ↦ ap (λ m. in_use (take m array)) (ground (arith, inner))
  | inr outer ↦
      ap (λ m. in_use (take m array)) {y = length array} (ground (arith, outer))
      ∙ ap in_use (
          take-whole (length array) array (omega arith)
          ∙ sym (take-whole n array (ground (arith, outer))))
]

module _ (array : List Bool) (nodes : List Node) (bounded : length array ≤ 2 ^ scmmaxbits) where
  slots_upto :
      (i : ℕ) → held_by (count_array array 0 0 (scmmaxbits + 1)) i ≡ in_use (take (2 ^ i) array)
  slots_upto i =
      slices-held array nodes bounded i
      ∙ count_slice-in_use array (min (2 ^ i) (length array))
      ∙ take-min (2 ^ i) array

  counted_upto : (i : ℕ) → held_by (counts array nodes).0 i ≡ keys_upto array nodes i
  counted_upto i =
      let slices = count_array array 0 0 (scmmaxbits + 1) in
      let (held, all) =
        count_nodes-held i nodes slices (sum slices) (sum slices)
          (length-count_array array 0 0 (scmmaxbits + 1)) in
      omega (arith, held, slots_upto i)

  counted_all : (counts array nodes).2 ≡ in_use array + live_nodes nodes
  counted_all =
      let slices = count_array array 0 0 (scmmaxbits + 1) in
      let (held, all) =
        count_nodes-held 0 nodes slices (sum slices) (sum slices)
          (length-count_array array 0 0 (scmmaxbits + 1)) in
      omega (
        arith,
        all,
        slices-sum array nodes bounded,
        count_slice-in_use array (length array),
        ap in_use (take-whole (length array) array (omega arith)),
      )

-- For an array part of at most 2 ^ 24 slots and at most 2 ^ 30 nodes, the sizes that `numuse`
-- chooses are the best ones for the keys in use: no array part of a power of two, at least half
-- filled by the slots in use up to that index and the live nodes whose key has such an index (its
-- low 32 bits, from 1 to 2 ^ 24), holds more keys than the one chosen, which is itself at least
-- half filled or has no slot, and the hash part is for the other slots and nodes in use.
pub numuse-IsOptimal :
    (array : List Bool) (nodes : List Node)
    → length array ≤ 2 ^ scmmaxbits
    → length nodes ≤ 2 ^ 30
    → IsOptimal array nodes (numuse array nodes)
numuse-IsOptimal array nodes bounded few =
    let (na, rest, best, half) = numuse-IsBest array nodes in
    let upto = counted_upto array nodes bounded in
    (
      na,
      rest ∙ ap (λ t. t - na) (counted_all array nodes bounded),
      λ i filled. omega (arith, upto i, best i (omega (arith, upto i, filled))),
      elim half [
        | inl bare ↦ inl bare
        | inr (i, size, held, filled) ↦ inr (i, size, held ∙ upto i, filled)
      ],
    )
