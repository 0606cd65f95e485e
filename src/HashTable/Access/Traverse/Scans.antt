-- ===== src/HashTable/Access/Traverse/Scans.antt =====
-- The scans of `next` and its numbers for the keys of the array part.
use dummyscheme.Common.{
  none, some, List, ℕ, Option, ◌≡◌, ◌≤◌, ◌∷◌, ◌++◌, [], ◌^◌, ◌⊎◌, if◌then◌else◌, suc, inl, drop,
  leb, ◌+◌, inr, ◌<◌, ◌&&◌, length, ◌-◌, refl, arith, ap, ltb, ◌∙◌, Option-cases, Bool-cases, zero,
  ltb→lt, ◌>>>◌, ◌==◌, true, false,
}
use dummyscheme.Common.Int.{ℤ, pos, negsuc}
use dummyscheme.Bytevector.{int32}
use dummyscheme.HashTable.{arrayindex, integer, scmmaxbits}
use dummyscheme.HashTable.Nodes.{TableNode, Keys, node_at}
use dummyscheme.HashTable.Access.{array_slot}
use dummyscheme.HashTable.Access.Entries.{slice_entries, entry_of}
use dummyscheme.HashTable.Access.Traverse.{scan_array, scan_nodes, entry_at, array_place}

module _ {K V : Type 0} where
  -- The elements of the nodes, the first node first.
  abbrev pub listed_nodes : List (TableNode K V) → List (K × V)
  listed_nodes [] = []
  listed_nodes (n ∷ nodes) = entry_of n.key n.val ++ listed_nodes nodes

  module _ (number : ℤ → K) where
    -- A scan of a slice ends at its first element, and the others follow it.
    pub scan_array_lem :
        (i : ℕ) (slice : List (Option V))
        → ((scan_array number i slice ≡ none) × (slice_entries number i slice ≡ []))
          ⊎ ((j : ℕ) × (v : V) × (scan_array number i slice ≡ some (number (pos (suc (i + j))), v))
              × (slice_entries number i slice
                  ≡ (number (pos (suc (i + j))), v)
                    ∷ slice_entries number (suc (i + j)) (drop (suc j) slice))
              × (j < length slice))
    unfolding scan_array
    scan_array_lem i [] = inl (refl, refl)
    scan_array_lem i (none ∷ slice) = elim (scan_array_lem (suc i) slice) [
      | inl found ↦ inl found
      | inr (j, v, run, same, below) ↦
          let at : suc i + j ≡ i + suc j = omega arith in
          inr (
            suc j,
            v,
            run ∙ ap (λ n. some (number (pos (suc n)), v)) at,
            same
                ∙ ap
                    (λ n.
                      (number (pos (suc n)), v) ∷ slice_entries number (suc n) (drop (suc j) slice))
                    at,
            omega arith,
          )
    ]
    scan_array_lem i (some v ∷ slice) =
        let at : i ≡ i + 0 = omega arith in
        inr (
          0,
          v,
          ap (λ n. some (number (pos (suc n)), v)) at,
          ap (λ n. (number (pos (suc n)), v) ∷ slice_entries number (suc n) slice) at,
          omega arith,
        )

  entry_at_lem :
      (k : Option K) (v : Option V)
      → ((entry_at k v ≡ none) × (entry_of k v ≡ []))
        ⊎ ((a : K) × (w : V) × (entry_at k v ≡ some (a, w))
            × (entry_of k v ≡ (a, w) ∷ [])
            × (k ≡ some a))
  unfolding entry_at
  entry_at_lem none v = inl (refl, refl)
  entry_at_lem (some k) none = inl (refl, refl)
  entry_at_lem (some k) (some v) = inr (k, v, refl, refl, refl)

  -- The same of a scan of nodes.
  pub scan_nodes_lem :
      (nodes : List (TableNode K V))
      → ((scan_nodes nodes ≡ none) × (listed_nodes nodes ≡ []))
        ⊎ ((j : ℕ) × (k : K) × (v : V) × (scan_nodes nodes ≡ some (k, v))
            × (listed_nodes nodes ≡ (k, v) ∷ listed_nodes (drop (suc j) nodes))
            × ((node_at nodes j).key ≡ some k)
            × (j < length nodes))
  unfolding scan_nodes
  scan_nodes_lem [] = inl (refl, refl)
  scan_nodes_lem (n ∷ nodes) = elim (entry_at_lem n.key n.val) [
    | inr (k, v, run, same, there) ↦ inr (
      0,
      k,
      v,
      rw (scan_nodes, run) refl,
      ap (λ l. l ++ listed_nodes nodes) same,
      there,
      omega arith,
    )
    | inl (run, same) ↦ elim (scan_nodes_lem nodes) [
      | inl (ran, listed) ↦
          inl (rw (scan_nodes, run) ran, ap (λ l. l ++ listed_nodes nodes) same ∙ listed)
      | inr (j, k, v, ran, listed, there, below) ↦ inr (
        suc j,
        k,
        v,
        rw (scan_nodes, run) ran,
        ap (λ l. l ++ listed_nodes nodes) same ∙ listed,
        there,
        omega arith,
      )
    ]
  ]

module _ {K : Type 0} ⦃keys : Keys K⦄ where
  -- `next` numbers the keys of the array part as `get` does.
  pub array_place-array_slot :
      (k : K) (size : ℕ) → size ≤ 2 ^ scmmaxbits → array_place k size ≡ array_slot k size
  unfolding array_place array_slot arrayindex
  array_place-array_slot k size bounded = elim (Option-cases (keys.numi k)) [
    | inl gone ↦ rw (array_place, array_slot, gone) refl
    | inr (z, there) ↦ rw (array_place, array_slot, there) (by_sign z (int32 z) refl)
  ]
    where
      by_sign :
          (z y : ℤ)
          → int32 z ≡ y
          → elim (arrayindex (integer z)) [
            | none ↦ none
            | some i ↦ if leb 1 i && leb i size then some (i - 1) else none
          ]
            ≡ elim (int32 z) [
              | negsuc n ↦ none
              | pos zero ↦ none
              | pos (suc i) ↦ if ltb i size then some i else none
            ]
      by_sign z (negsuc n) e = rw e refl
      by_sign z (pos zero) e = rw e refl
      by_sign z (pos (suc n)) e = elim (Bool-cases (ltb n size)) [
        | inl below ↦
            let inside = ltb→lt n size below in
            let small : ((n >>> scmmaxbits) == 0) ≡ true = ground (arith, inside, bounded) in
            let fit : leb (suc n) size ≡ true = ground (arith, inside) in
            let one : leb 1 (suc n) ≡ true = ground arith in
            rw (arrayindex, e, small, one, fit, below) (ap (λ m. some m) (omega arith))
        | inr beyond ↦
            let unfit : (leb 1 (suc n) && leb (suc n) size) ≡ false = ground (arith, beyond) in
            elim (Bool-cases ((n >>> scmmaxbits) == 0)) [
              | inl small ↦ rw (arrayindex, e, small, unfit, beyond) refl
              | inr large ↦ rw (arrayindex, e, large, beyond) refl
            ]
      ]
