-- ===== src/HashTable/Access/Traverse.antt =====
-- scmtable.cpp `next`, the traversal of a table: the elements are numbered, those of the array part
-- first. The pair that the code makes for an element is a pair here.
pub mod Scans
pub mod Order
pub mod Complete
use dummyscheme.Common.{
  none, some, ℕ, Option, List, suc, if◌then◌else◌, length, drop, ◌>>=◌, ◌∷◌, leb, ◌+◌, ◌-◌, [],
  ◌&&◌, zero,
}
use dummyscheme.Common.Int.{ℤ, pos}
use dummyscheme.HashTable.{arrayindex, integer, other}
use dummyscheme.HashTable.Nodes.{HashTableObj, TableNode, Keys, nodeindex}

module _ {K V : Type 0} where
  -- The scan of the array part, of a slice whose first index is `i`.
  unfoldable pub scan_array : (ℤ → K) → ℕ → List (Option V) → Option (K × V)
  scan_array setnumi i [] = none
  scan_array setnumi i (none ∷ slice) = scan_array setnumi (suc i) slice
  scan_array setnumi i (some v ∷ slice) = some (setnumi (pos (suc i)), v)

  -- A node whose key and value are defined.
  unfoldable pub entry_at : Option K → Option V → Option (K × V)
  entry_at (some k) (some v) = some (k, v)
  entry_at none v = none
  entry_at (some k) none = none

  -- The scan of the hash part.
  unfoldable pub scan_nodes : List (TableNode K V) → Option (K × V)
  scan_nodes [] = none
  scan_nodes (n ∷ nodes) =
      let rest = scan_nodes nodes in elim (entry_at n.key n.val) [ none ↦ rest | some e ↦ some e ]

module _ {K : Type 0} ⦃keys : Keys K⦄ where
  -- `k = arrayindex(&key)`, and `k - 1` when `k >= 1 && k <= sizearray`.
  unfoldable pub array_place : K → ℕ → Option ℕ
  array_place k size =
      elim (arrayindex (elim (keys.numi k) [ none ↦ other 0 | some z ↦ integer z ])) [
        | none ↦ none
        | some i ↦ if leb 1 i && leb i size then some (i - 1) else none
      ]

module _ {K V : Type 0} ⦃keys : Keys K⦄ where
  -- The number of a key; `none` is the error that the key is not there.
  unfoldable pub place_of : HashTableObj K V → K → Option ℕ
  place_of t k = elim (array_place k (length t.array)) [
    | some i ↦ some i
    | none ↦
        nodeindex t k >>= λ found. elim found [ none ↦ none | some i ↦ some (i + length t.array) ]
  ]

  -- The two scans, from a number on.
  unfoldable pub scan_from : HashTableObj K V → ℕ → Option (K × V)
  scan_from t i = elim (scan_array keys.setnumi i (drop i t.array)) [
    | some e ↦ some e
    | none ↦ scan_nodes (drop (i - length t.array) t.node)
  ]

  -- The next element after a key, or the first one; `none` inside is `#f`.
  unfoldable pub next : HashTableObj K V → Option K → Option (Option (K × V))
  next t none = some (scan_from t 0)
  next t (some k) = place_of t k >>= λ i. some (scan_from t (suc i))

-- The elements of a whole traversal from a key on: the caller's loop that passes each result on to
-- `next`, with fuel.
unfoldable pub traverse :
    {K V : Type 0} ⦃keys : Keys K⦄ → ℕ → HashTableObj K V → Option K → Option (List (K × V))
traverse zero t at = none
traverse (suc fuel) t at = next t at >>= λ found. elim found [
  | none ↦ some []
  | some e ↦ traverse fuel t (some e.0) >>= λ rest. some (e ∷ rest)
]
