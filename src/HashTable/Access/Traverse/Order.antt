-- ===== src/HashTable/Access/Traverse/Order.antt =====
-- The order of a traversal: the array part and then the nodes.
use dummyscheme.Common.{
  none, some, List, ℕ, Option, ◌≡◌, ◌≤◌, ◌∷◌, ◌++◌, [], ◌^◌, ◌⊎◌, suc, inl, drop, ◌+◌, inr, ◌<◌,
  length, ◌-◌, refl, arith, ap, ◌∙◌, length-drop, sym, zero, drop-drop, get_or-drop, drop-all,
}
use dummyscheme.Common.Int.{pos}
use dummyscheme.HashTable.{scmmaxbits}
use dummyscheme.HashTable.Nodes.{HashTableObj, TableNode, Keys, node_at, nodeindex, empty_node}
use dummyscheme.HashTable.Access.Slots.{IsTable, array_slot-of}
use dummyscheme.HashTable.Access.Reads.{HashPart-Finds, HashPart-IsUnique}
use dummyscheme.HashTable.Access.Entries.{slice_entries}
use dummyscheme.HashTable.Access.Traverse.{
  scan_array, scan_nodes, place_of, scan_from, next, traverse,
}
use dummyscheme.HashTable.Access.Traverse.Scans.{
  listed_nodes, scan_array_lem, scan_nodes_lem, array_place-array_slot,
}

module _ {K V : Type 0} ⦃keys : Keys K⦄ (t : HashTableObj K V) where
  -- The elements from a number on.
  abbrev listed_from : ℕ → List (K × V)
  listed_from i =
      slice_entries keys.setnumi i (drop i t.array)
      ++ listed_nodes (drop (i - length t.array) t.node)

  -- What `next` finds from a number on, and what is then left.
  abbrev Scans : ℕ → Type 0
  Scans i =
      ((scan_from t i ≡ none) × (listed_from i ≡ []))
      ⊎ ((p : ℕ) × (k : K) × (v : V) × (scan_from t i ≡ some (k, v))
          × (listed_from i ≡ (k, v) ∷ listed_from (suc p))
          × (place_of t k ≡ some p)
          × (i ≤ p)
          × (p < length t.array + length t.node))

  -- Every element in the order of its number: those of the array part, then those of the nodes.
  abbrev pub listed : List (K × V)
  listed = slice_entries keys.setnumi 0 t.array ++ listed_nodes t.node

  module _ (valid : IsTable t) (bounded : length t.array ≤ 2 ^ scmmaxbits) where
    array_scan :
        (i j : ℕ) (v : V)
        → scan_array keys.setnumi i (drop i t.array) ≡ some (keys.setnumi (pos (suc (i + j))), v)
        → slice_entries keys.setnumi i (drop i t.array)
          ≡ (keys.setnumi (pos (suc (i + j))), v)
            ∷ slice_entries keys.setnumi (suc (i + j)) (drop (suc j) (drop i t.array))
        → j < length (drop i t.array)
        → Scans i
    unfolding scan_from place_of
    array_scan i j v run same below =
        let number = keys.setnumi (pos (suc (i + j))) in
        let inside : i + j < length t.array = omega (arith, below, length-drop i t.array) in
        let slot =
          array_slot-of number (length t.array) (i + j)
            (keys.numi-setnumi (suc (i + j)) (omega (arith, inside, bounded))) inside in
        let place = array_place-array_slot number (length t.array) bounded ∙ slot in
        let left =
          drop-drop i (suc j) t.array
          ∙ ap (λ n. drop n t.array) {x = i + suc j} {y = suc (i + j)} (omega arith) in
        let nodes : i - length t.array ≡ suc (i + j) - length t.array = omega (arith, inside) in
        inr (
          i + j,
          number,
          v,
          rw (scan_from, run) refl,
          ap (λ l. l ++ listed_nodes (drop (i - length t.array) t.node)) same
              ∙ ap
                  (λ l.
                    (number, v)
                    ∷ (slice_entries keys.setnumi (suc (i + j)) l
                        ++ listed_nodes (drop (i - length t.array) t.node)))
                  left
              ∙ ap
                  (λ n.
                    (number, v)
                    ∷ (slice_entries keys.setnumi (suc (i + j)) (drop (suc (i + j)) t.array)
                        ++ listed_nodes (drop n t.node)))
                  nodes,
          rw (place_of, place) refl,
          omega arith,
          omega (arith, inside),
        )

    nodeindex-at : (i : ℕ) (k : K) → (node_at t.node i).key ≡ some k → nodeindex t k ≡ some (some i)
    nodeindex-at i k there = elim (HashPart-Finds t k valid.hash) [
      | inl (m, a, run, at, same) ↦
          let place = HashPart-IsUnique t valid.hash i m k a there at same in
          run ∙ ap (λ (n : ℕ). some (some n)) (sym place)
      | inr (run, absent) ↦ let e = absent i k there in let r = keys.keyeq_refl k in absurd cc
    ]

    node_scan :
        (i j : ℕ) (k : K) (v : V)
        → scan_array keys.setnumi i (drop i t.array) ≡ none
        → slice_entries keys.setnumi i (drop i t.array) ≡ []
        → scan_nodes (drop (i - length t.array) t.node) ≡ some (k, v)
        → listed_nodes (drop (i - length t.array) t.node)
          ≡ (k, v) ∷ listed_nodes (drop (suc j) (drop (i - length t.array) t.node))
        → (node_at (drop (i - length t.array) t.node) j).key ≡ some k
        → j < length (drop (i - length t.array) t.node)
        → Scans i
    unfolding scan_from place_of
    node_scan i j k v none_left no_entries run same there below =
        let start = i - length t.array in
        let p = start + j + length t.array in
        let held =
          ap (λ (n : TableNode K V). n.key) (sym (get_or-drop start j t.node empty_node)) ∙ there in
        let place =
          array_place-array_slot k (length t.array) bounded ∙ valid.outside (start + j) k held in
        let left =
          drop-drop start (suc j) t.node
          ∙ ap (λ n. drop n t.node) {x = start + suc j} {y = suc p - length t.array}
              (omega arith) in
        let past = drop-all (suc p) t.array (omega arith) in
        inr (
          p,
          k,
          v,
          rw (scan_from, none_left) run,
          ap (λ l. l ++ listed_nodes (drop start t.node)) no_entries
              ∙ same
              ∙ ap (λ l. (k, v) ∷ listed_nodes l) left
              ∙ ap
                  (λ l.
                    (k, v)
                    ∷ (slice_entries keys.setnumi (suc p) l
                        ++ listed_nodes (drop (suc p - length t.array) t.node)))
                  (sym past),
          rw (place_of, place, nodeindex-at (start + j) k held) refl,
          omega arith,
          omega (arith, below, length-drop start t.node),
        )

    scan_from_lem : (i : ℕ) → Scans i
    unfolding scan_from
    scan_from_lem i = elim (scan_array_lem keys.setnumi i (drop i t.array)) [
      | inr (j, v, run, same, below) ↦ array_scan i j v run same below
      | inl (none_left, no_entries) ↦ elim (scan_nodes_lem (drop (i - length t.array) t.node)) [
        | inr (j, k, v, run, same, there, below) ↦
            node_scan i j k v none_left no_entries run same there below
        | inl (run, same) ↦ inl (
          rw (scan_from, none_left) run,
          ap (λ l. l ++ listed_nodes (drop (i - length t.array) t.node)) no_entries ∙ same,
        )
      ]
    ]

    traverse-listed_from :
        (fuel i : ℕ) (at : Option K)
        → length t.array + length t.node < fuel + i
        → 0 < fuel
        → next t at ≡ some (scan_from t i)
        → traverse fuel t at ≡ some (listed_from i)
    unfolding traverse next
    traverse-listed_from zero i at enough some_fuel step = absurd (omega arith)
    traverse-listed_from (suc fuel) i at enough some_fuel step = elim (scan_from_lem i) [
      | inl (run, same) ↦ rw (traverse, step, run, same) refl
      | inr (p, k, v, run, same, place, above, below) ↦
          let after : next t (some k) ≡ some (scan_from t (suc p)) = rw (next, place) refl in
          let rest = traverse-listed_from fuel (suc p) (some k) (omega arith) (omega arith) after in
          rw (traverse, step, run, rest, same) refl
    ]

    pub traverse-listed : traverse (suc (length t.array + length t.node)) t none ≡ some listed
    unfolding next
    traverse-listed =
        traverse-listed_from (suc (length t.array + length t.node)) 0 none (omega arith)
          (omega arith) refl
        ∙ ap (λ n. some (slice_entries keys.setnumi 0 t.array ++ listed_nodes (drop n t.node)))
            {x = 0 - length t.array} {y = 0} (omega arith)
