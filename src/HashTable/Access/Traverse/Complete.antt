-- ===== src/HashTable/Access/Traverse/Complete.antt =====
-- A traversal against `get`.
use dummyscheme.Common.{
  none, some, List, length, All, ◌++◌, ◌≤◌, ◌∷◌, ◌⊎◌, ◌^◌, [], inl, inr, Option, ◌≡◌, suc, ◌∙◌,
  arith, sym, ◌+◌, ap, get_or, ℕ, some_inj,
}
use dummyscheme.Common.Int.{pos}
use dummyscheme.HashTable.{scmmaxbits}
use dummyscheme.HashTable.Nodes.{HashTableObj, TableNode, Keys, node_at}
use dummyscheme.HashTable.Access.{get}
use dummyscheme.HashTable.Access.Slots.{IsTable, Maps, Maps-unique, get-Maps, array_slot-numi}
use dummyscheme.HashTable.Access.Entries.{
  slice_entries, node_entries, entry_of, Match, Match-append_left, Match-append_right,
}
use dummyscheme.HashTable.Access.Origins.{
  slice-All, nodes-All, slice-Match, nodes-Match, All-append,
}
use dummyscheme.HashTable.Access.Traverse.{traverse}
use dummyscheme.HashTable.Access.Traverse.Scans.{listed_nodes}
use dummyscheme.HashTable.Access.Traverse.Order.{listed, traverse-listed}

module _ {A : Type 0} where
  All-parts : (P : A → Type 0) (l m : List A) → All P (l ++ m) → All P l × All P m
  All-parts P [] m h = (tt, h)
  All-parts P (e ∷ l) m h = let (left, right) = All-parts P l m h.1 in ((h.0, left), right)

  All-imp : (P Q : A → Type 0) (l : List A) → ((e : A) → P e → Q e) → All P l → All Q l
  All-imp P Q [] f h = tt
  All-imp P Q (e ∷ l) f h = (f e h.0, All-imp P Q l f h.1)

module _ {K V : Type 0} ⦃keys : Keys K⦄ where
  listed_nodes-All :
      (P : K × V → Type 0) (nodes : List (TableNode K V))
      → All P (node_entries nodes)
      → All P (listed_nodes nodes)
  listed_nodes-All P [] h = tt
  listed_nodes-All P (n ∷ nodes) h =
      let (rest, first) = All-parts P (node_entries nodes) (entry_of n.key n.val) h in
      All-append P (entry_of n.key n.val) (listed_nodes nodes) first (listed_nodes-All P nodes rest)

  Match-parts : (q : K) (l m : List (K × V)) → Match q (l ++ m) → Match q l ⊎ Match q m
  Match-parts q [] m h = inr h
  Match-parts q (e ∷ l) m (inl same) = inl (inl same)
  Match-parts q (e ∷ l) m (inr h) = elim (Match-parts q l m h) [
    | inl left ↦ inl (inr left)
    | inr right ↦ inr right
  ]

  listed_nodes-Match :
      (q : K) (nodes : List (TableNode K V))
      → Match q (node_entries nodes)
      → Match q (listed_nodes nodes)
  listed_nodes-Match q [] h = h
  listed_nodes-Match q (n ∷ nodes) h =
      elim (Match-parts q (node_entries nodes) (entry_of n.key n.val) h) [
        | inl rest ↦
            Match-append_right q (entry_of n.key n.val) (listed_nodes nodes)
              (listed_nodes-Match q nodes rest)
        | inr first ↦ Match-append_left q (entry_of n.key n.val) (listed_nodes nodes) first
      ]

module _ {K V : Type 0} ⦃keys : Keys K⦄ (t : HashTableObj K V) (valid : IsTable t)
    (bounded : length t.array ≤ 2 ^ scmmaxbits) where
  Maps-get : (q : K) (w : Option V) → Maps t q w → get t q ≡ some w
  Maps-get q w maps =
      let (r, run, found) = get-Maps t q valid.hash in
      run ∙ ap (λ (m : Option V). some m) (Maps-unique t q r w valid found maps)

  listed-get : All (λ e. get t e.0 ≡ some (some e.1)) (listed t)
  listed-get =
      let slots =
        slice-All t valid (omega (arith, bounded)) t.array 0
          (λ j. ap (λ n. get_or t.array n none) {x = j} {y = 0 + j} (omega arith)) in
      let nodes =
        nodes-All t valid (omega (arith, bounded)) t.node 0
          (λ j. ap (λ n. node_at t.node n) {x = j} {y = 0 + j} (omega arith)) in
      All-imp (λ e. Maps t e.0 (some e.1)) (λ e. get t e.0 ≡ some (some e.1)) (listed t)
        (λ e maps. Maps-get e.0 (some e.1) maps)
        (All-append (λ e. Maps t e.0 (some e.1)) (slice_entries keys.setnumi 0 t.array)
          (listed_nodes t.node) slots (listed_nodes-All (λ e. Maps t e.0 (some e.1)) t.node nodes))

  Maps-Match : (q : K) (w : Option V) (v : V) → w ≡ some v → Maps t q w → Match q (listed t)
  Maps-Match q w v e (inl (i, slot, held)) =
      Match-append_left q (slice_entries keys.setnumi 0 t.array) (listed_nodes t.node) (
        slice-Match q t.array 0 i v (held ∙ e) (
          (array_slot-numi q (length t.array) i slot).0
          ∙ ap (λ (n : ℕ). some (pos (suc n))) {x = i} {y = 0 + i} (omega arith)))
  Maps-Match q w v e (inr (gone, inl (i, k, held, same, val))) =
      Match-append_right q (slice_entries keys.setnumi 0 t.array) (listed_nodes t.node)
        (listed_nodes-Match q t.node (nodes-Match q t.node i k v held (val ∙ e) same))
  Maps-Match q w v e (inr (gone, inr (absent, bare))) = cc

  get-Match : (q : K) (v : V) → get t q ≡ some (some v) → Match q (listed t)
  get-Match q v given =
      let (w, run, maps) = get-Maps t q valid.hash in
      Maps-Match q w v (some_inj (sym run ∙ given)) maps

  -- For a valid table with an array part of at most 2 ^ 24 slots, going on with `next` from each
  -- element, from the start, ends within one more step than there are slots and nodes, with the
  -- elements of the array part in order and then those of the nodes; each of them is what `get`
  -- gives for its key, and each key for which `get` gives a value is equal to one of theirs. The
  -- keys are those of the interface `Keys`: `keyeq` is an equivalence that the hash respects, and
  -- an integer key fits an `int`; greater fixnums are left out.
  pub traverse-get :
      (traverse (suc (length t.array + length t.node)) t none ≡ some (listed t))
      × All (λ e. get t e.0 ≡ some (some e.1)) (listed t)
      × ((q : K) (v : V) → get t q ≡ some (some v) → Match q (listed t))
  traverse-get = (traverse-listed t valid bounded, listed-get, get-Match)
