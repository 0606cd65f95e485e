-- ===== src/HashTable/Access/Needed.antt =====
-- The sizes that `rehash` resizes to leave room for every entry, and one more.
use dummyscheme.Common.{
  none, some, zero, suc, [], ◌∷◌, false, ℕ, List, length, get_or, refl, inl, inr, ◌<◌, ◌≡◌, ◌+◌,
  ◌^◌, ◌-◌, arith, Bool-cases, ◌≤◌, if◌then◌else◌, Option-cases, ap, ◌∙◌, sym, Option, map, drop,
  ◌++◌, ltb, ltb→lt, length-drop, leb, ◌>>>◌, ◌==◌, get_or-drop,
}
use dummyscheme.Common.Int.{ℤ, pos, negsuc}
use dummyscheme.Bytevector.{int32}
use dummyscheme.HashTable.{arrayindex, count_slice, numuse, rehash_sizes, scmmaxbits, integer}
use dummyscheme.HashTable.Counts.{rehash_sizes-room}
use dummyscheme.HashTable.Totals.{numuse-unfitting}
use dummyscheme.HashTable.Totals.Tally.{fits, unfitting}
use dummyscheme.HashTable.Nodes.{HashTableObj, TableNode, Keys}
use dummyscheme.HashTable.Access.{array_slot, live, counted}
use dummyscheme.HashTable.Access.Writes.{needs_node}
use dummyscheme.HashTable.Access.Entries.{entry_of, node_entries, slice_entries, nodes_needed}
use dummyscheme.HashTable.Access.Entries.{entries}
use dummyscheme.HashTable.Access.Slots.{array_slot-of}

pub needs-le : (o : Option ℕ) → needs_node o ≤ 1
needs-le none = omega arith
needs-le (some i) = omega arith

module _ {K : Type 0} ⦃keys : Keys K⦄ where
  -- A key with an index up to the size has a slot.
  number-slot :
      (k : K) (z : ℤ) (size : ℕ)
      → keys.numi k ≡ some z
      → needs_node (array_slot k size) ≤ 1 - fits size (arrayindex (integer z))
  unfolding array_slot arrayindex
  number-slot k z size there = by_sign (int32 z) refl
    where
      by_sign :
          (y : ℤ)
          → int32 z ≡ y
          → needs_node (array_slot k size) ≤ 1 - fits size (arrayindex (integer z))
      by_sign (negsuc n) e =
          let index : arrayindex (integer z) ≡ none = rw (arrayindex, e) refl in
          omega (arith, needs-le (array_slot k size), ap (λ o. fits size o) index)
      by_sign (pos zero) e =
          let index : arrayindex (integer z) ≡ none = rw (arrayindex, e) refl in
          omega (arith, needs-le (array_slot k size), ap (λ o. fits size o) index)
      by_sign (pos (suc n)) e = elim (Bool-cases (ltb n size)) [
        | inl below ↦
            let number = there ∙ ap (λ (y : ℤ). some y) (sym (keys.numi-fits k z there) ∙ e) in
            let slot = array_slot-of k size n number (ltb→lt n size below) in
            omega (arith, ap (λ o. needs_node o) slot)
        | inr beyond ↦
            let unfit : leb (suc n) size ≡ false = ground (arith, beyond) in
            let index : fits size (if (n >>> scmmaxbits) == 0 then some (suc n) else none) ≡ 0 =
              elim (Bool-cases ((n >>> scmmaxbits) == 0)) [
                | inl small ↦ rw (small, unfit) refl
                | inr large ↦ rw large refl
              ] in
            let opened : arrayindex (integer z)
                ≡ (if (n >>> scmmaxbits) == 0 then some (suc n) else none) =
              rw (arrayindex, e) refl in
            omega (arith, needs-le (array_slot k size), ap (λ o. fits size o) opened ∙ index)
      ]

module _ {K V : Type 0} ⦃keys : Keys K⦄ where
  entry-needed :
      (size : ℕ) (k : Option K) (v : Option V) (next : Option ℕ)
      → nodes_needed size (entry_of k v)
        ≤ unfitting size (counted (record { key = k; val = v; next = next }) ∷ [])
  unfolding counted live arrayindex
  entry-needed size none v next = omega arith
  entry-needed size (some k) none next = omega arith
  entry-needed size (some k) (some v) next = elim (Option-cases (keys.numi k)) [
    | inl gone ↦ rw gone (omega (arith, needs-le (array_slot k size)))
    | inr (z, there) ↦ rw there (omega (arith, number-slot k z size there))
  ]

  nodes_needed-append :
      (size : ℕ) (l m : List (K × V))
      → nodes_needed size (l ++ m) ≡ nodes_needed size l + nodes_needed size m
  nodes_needed-append size [] m = omega arith
  nodes_needed-append size (e ∷ l) m = omega (arith, nodes_needed-append size l m)

  nodes-needed :
      (size : ℕ) (nodes : List (TableNode K V))
      → nodes_needed size (node_entries nodes) ≤ unfitting size (map counted nodes)
  nodes-needed size [] = omega arith
  nodes-needed size (n ∷ nodes) = omega (
    arith,
    nodes-needed size nodes,
    entry-needed size n.key n.val n.next,
    nodes_needed-append size (node_entries nodes) (entry_of n.key n.val),
  )

get_or-live :
    {V : Type 0} (array : List (Option V)) (i : ℕ)
    → get_or (map live array) i false ≡ live (get_or array i none)
unfolding live
get_or-live [] i = refl
get_or-live (x ∷ array) zero = refl
get_or-live (x ∷ array) (suc i) = get_or-live array i

module _ {V : Type 0} (array : List (Option V)) where
  at_slot :
      (i : ℕ) (o : Option V)
      → o ≡ get_or array (i + 0) none
      → get_or (map live array) i false ≡ live o
  at_slot i o e =
      get_or-live array i
      ∙ ap (λ n. live (get_or array n none)) {x = i} {y = i + 0} (omega arith)
      ∙ ap (λ w. live w) (sym e)

module _ (K : Type 0) {V : Type 0} ⦃keys : Keys K⦄ (array : List (Option V)) where
  slice-needed :
      (size i : ℕ) (slice : List (Option V))
      → ((j : ℕ) → get_or slice j none ≡ get_or array (i + j) none)
      → nodes_needed size (slice_entries keys.setnumi i slice)
        ≤ count_slice (map live array) i (length slice)
  unfolding count_slice live
  slice-needed size i [] same = omega arith
  slice-needed size i (none ∷ slice) same =
      let rest = slice-needed size (suc i) slice (λ j.
        same (suc j)
        ∙ ap (λ n. get_or array n none) {x = i + suc j} {y = suc i + j} (omega arith)) in
      rw (at_slot array i none (same 0)) rest
  slice-needed size i (some v ∷ slice) same =
      let rest = slice-needed size (suc i) slice (λ j.
        same (suc j)
        ∙ ap (λ n. get_or array n none) {x = i + suc j} {y = suc i + j} (omega arith)) in
      rw (at_slot array i (some v) (same 0))
        (omega (arith, rest, needs-le (array_slot (keys.setnumi (pos (suc i))) size)))

module _ {K V : Type 0} ⦃keys : Keys K⦄ (t : HashTableObj K V) where
  -- The sizes that `rehash` chooses.
  abbrev pub new_sizes : ℕ × ℕ
  new_sizes = rehash_sizes (map live t.array) (map counted t.node)

  length-map : (xs : List (Option V)) → length (map live xs) ≡ length xs
  length-map [] = refl
  length-map (x ∷ xs) = ap suc (length-map xs)

  pub rehash-room :
      length t.array ≤ 2 ^ scmmaxbits
      → (numuse (map live t.array) (map counted t.node)).1 < 2 ^ 32
      → nodes_needed new_sizes.0 (entries t new_sizes.0) < 2 ^ new_sizes.1
  unfolding rehash_sizes
  rehash-room bounded few =
      let size = new_sizes.0 in
      let len = length-map t.array in
      let room = rehash_sizes-room (map live t.array) (map counted t.node) few in
      let fit =
        numuse-unfitting (map live t.array) (map counted t.node) (omega (arith, bounded, len)) in
      let parts =
        nodes_needed-append size (slice_entries keys.setnumi size (drop size t.array))
          (node_entries t.node) in
      let slice =
        slice-needed K t.array size size (drop size t.array)
          (λ j. get_or-drop size j t.array none) in
      let sizes : length (drop size t.array) ≡ length (map live t.array) - size =
        omega (arith, len, length-drop size t.array) in
      omega (
        arith,
        room,
        fit,
        parts,
        slice,
        nodes-needed size t.node,
        ap (λ n. count_slice (map live t.array) size n) sizes,
      )
