-- ===== src/HashTable/Totals.antt =====
-- The keys that `numuse` leaves for the hash part are at least those without a slot of the array
-- part that it chooses.
pub mod Tally
use dummyscheme.Common.{
  none, some, zero, suc, [], ◌∷◌, true, false, ℕ, Bool, List, length, get_or, set, refl, inl, inr,
  ◌<◌, ◌≡◌, ◌+◌, ◌^◌, ◌-◌, arith, Bool-cases, ◌≤◌, if◌then◌else◌, Option-cases, leb, min, ap, ◌∙◌,
  Option, take, ltb, ltb→lt, ltb-false→le, leb→le, sym,
}
use dummyscheme.Common.Powers.{two-pow_mono}
use dummyscheme.HashTable.{
  log2i, arrayindex, Node, count_array, count_slice, count_nodes, sum, scmmaxbits, loop_end, numuse,
}
use dummyscheme.HashTable.Sizes.{held_by, log2i-bound}
use dummyscheme.HashTable.Counts.{arrayindex-bound, length-count_array, numuse-IsBest, counts}
use dummyscheme.HashTable.Totals.Tally.{
  count_slice-add, count_slice-nothing, count_array-held, fitting, unfitting, live_nodes,
  fitting-unfitting, count_nodes-held, take-whole, take-all,
}

module _ (array : List Bool) (nodes : List Node) (bounded : length array ≤ 2 ^ scmmaxbits) where
  abbrev slices : List ℕ
  slices = count_array array 0 0 (scmmaxbits + 1)

  pub slices-sum : sum (count_array array 0 0 (scmmaxbits + 1)) ≡ count_slice array 0 (length array)
  slices-sum =
      let whole =
        count_array-held array scmmaxbits 0 0 (scmmaxbits + 1) (omega arith) (omega arith) in
      let len = length-count_array array 0 0 (scmmaxbits + 1) in
      omega (
        arith,
        whole,
        take-all (suc scmmaxbits) slices (omega (arith, len)),
        ap (λ t. count_slice array 0 t) {x = min (2 ^ (0 + scmmaxbits)) (length array) - 0}
            {y = length array} (omega (arith, bounded)),
      )

  pub slices-held :
      (i : ℕ)
      → held_by (count_array array 0 0 (scmmaxbits + 1)) i
        ≡ count_slice array 0 (min (2 ^ i) (length array))
  slices-held i = elim (Bool-cases (ltb i (scmmaxbits + 1))) [
    | inl low ↦ omega (
      arith,
      count_array-held array i 0 0 (scmmaxbits + 1) (ltb→lt i (scmmaxbits + 1) low) (omega arith),
      ap (λ t. count_slice array 0 (min (2 ^ t) (length array) - 0)) {x = 0 + i} {y = i}
          (omega arith),
      ap (λ t. count_slice array 0 t) {x = min (2 ^ i) (length array) - 0}
          {y = min (2 ^ i) (length array)} (omega arith),
    )
    | inr high ↦
        let long = ltb-false→le i (scmmaxbits + 1) high in
        let power = two-pow_mono scmmaxbits i (omega (arith, long)) in
        let len = length-count_array array 0 0 (scmmaxbits + 1) in
        omega (
          arith,
          take-all (suc i) (count_array array 0 0 (scmmaxbits + 1)) (omega (arith, long, len)),
          slices-sum,
          ap (λ t. count_slice array 0 t) {x = length array} {y = min (2 ^ i) (length array)}
              (omega (arith, bounded, power)),
        )
  ]

  -- The slots after the new array part and the keys that do not fit it are at most the keys that
  -- the hash part is for.
  pub numuse-unfitting :
      count_slice array (numuse array nodes).0 (length array - (numuse array nodes).0)
        + unfitting (numuse array nodes).0 nodes
      ≤ (numuse array nodes).1
  numuse-unfitting =
      let (na, rest, best, half) = numuse-IsBest array nodes in
      let len = length-count_array array 0 0 (scmmaxbits + 1) in
      let size = (numuse array nodes).0 in
      let all : (counts array nodes).2 ≡ sum slices + live_nodes nodes =
        (count_nodes-held 0 nodes slices (sum slices) (sum slices) len).1 in
      elim half [
        | inl (none_size, none_held) ↦ omega (
          arith,
          rest,
          all,
          none_held,
          slices-sum,
          fitting-unfitting size nodes,
          ap (λ t. count_slice array t (length array - t)) none_size,
          ap (λ t. count_slice array 0 t) {x = length array - 0} {y = length array} (omega arith),
        )
        | inr (i, is_power, is_held, filled) ↦
            let (held, _) = count_nodes-held i nodes slices (sum slices) (sum slices) len in
            let cut = min (2 ^ i) (length array) in
            let parts = count_slice-add array 0 cut (length array - cut) in
            let parts_len =
              ap (λ t. count_slice array 0 t) {x = cut + (length array - cut)} {y = length array}
                (omega arith) in
            let start =
              ap (λ t. count_slice array t (length array - cut)) {x = 0 + cut} {y = cut}
                (omega arith) in
            let sizes = ap (λ t. count_slice array t (length array - t)) is_power in
            let fit = fitting-unfitting size nodes in
            let fit_power = ap (λ t. fitting t nodes) is_power in
            let tail : count_slice array (2 ^ i) (length array - 2 ^ i)
                ≡ count_slice array cut (length array - cut) =
              elim (Bool-cases (leb (2 ^ i) (length array))) [
                | inl inner ↦
                    ap (λ t. count_slice array t (length array - t)) {x = 2 ^ i} {y = cut}
                      (omega (arith, leb→le (2 ^ i) (length array) inner))
                | inr outer ↦
                    count_slice-nothing array (2 ^ i) (length array - 2 ^ i) (ground (arith, outer))
                    ∙ sym
                        (count_slice-nothing array cut (length array - cut) (ground (arith, outer)))
              ] in
            omega (
              arith,
              rest,
              all,
              is_held,
              held,
              slices-held i,
              slices-sum,
              parts,
              parts_len,
              start,
              sizes,
              fit,
              fit_power,
              tail,
            )
      ]
