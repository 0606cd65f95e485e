-- ===== src/HashTable/Access/Origins.antt =====
-- The entries that `resize` puts in again are those of the table.
use mathlib.Core.Path.{subst}
use dummyscheme.Common.{
  none, some, zero, suc, [], ◌∷◌, ℕ, List, length, Option, ◌≡◌, sym, ap, ◌∙◌, inl, inr, ◌<◌, ◌+◌,
  ◌^◌, arith, get_or, ◌++◌, All, true, some_inj,
}
use dummyscheme.Common.Int.{pos}
use dummyscheme.HashTable.Nodes.{HashTableObj, TableNode, Keys, node_at}
use dummyscheme.HashTable.Access.Slots.{IsTable, Maps, array_slot-of}
use dummyscheme.HashTable.Access.Entries.{
  entry_of, node_entries, slice_entries, Match, Match-append_left, Match-append_right,
}
use dummyscheme.HashTable.Nodes.Insert.{key_eq, val_eq}

pub All-append {ℓ κ} :
    {A : Type ℓ} (P : A → Type κ) (l m : List A) → All P l → All P m → All P (l ++ m)
All-append P [] m h k = k
All-append P (e ∷ l) m h k = (h.0, All-append P l m h.1 k)

get_or-bound :
    {A : Type 0} (xs : List (Option A)) (i : ℕ) (v : A) → get_or xs i none ≡ some v → i < length xs
get_or-bound [] i v h = cc
get_or-bound (x ∷ xs) zero v h = omega arith
get_or-bound (x ∷ xs) (suc i) v h = omega (arith, get_or-bound xs i v h)

module _ {K V : Type 0} ⦃keys : Keys K⦄ where
  pub slice-Match :
      (q : K) (slice : List (Option V)) (i j : ℕ) (v : V)
      → get_or slice j none ≡ some v
      → keys.numi q ≡ some (pos (suc (i + j)))
      → Match q (slice_entries keys.setnumi i slice)
  slice-Match q [] i j v h n = cc
  slice-Match q (none ∷ slice) i zero v h n = cc
  slice-Match q (some x ∷ slice) i zero v h n = inl (
      keys.keyeq-setnumi q (pos (suc i))
        (n ∙ ap (λ (t : ℕ). some (pos (suc t))) {x = i + 0} {y = i} (omega arith)))
  slice-Match q (none ∷ slice) i (suc j) v h n =
      slice-Match q slice (suc i) j v h
        (n ∙ ap (λ (t : ℕ). some (pos (suc t))) {x = i + suc j} {y = suc i + j} (omega arith))
  slice-Match q (some x ∷ slice) i (suc j) v h n = inr (
      slice-Match q slice (suc i) j v h
        (n ∙ ap (λ (t : ℕ). some (pos (suc t))) {x = i + suc j} {y = suc i + j} (omega arith)))

  entry-Match :
      (q : K) (o : Option K) (p : Option V) (k : K) (v : V)
      → o ≡ some k
      → p ≡ some v
      → keys.keyeq q k ≡ true
      → Match q (entry_of o p)
  entry-Match q none p k v ho hp same = cc
  entry-Match q (some a) none k v ho hp same = cc
  entry-Match q (some a) (some x) k v ho hp same =
      inl (subst (λ t. keys.keyeq q t ≡ true) (sym (some_inj ho)) same)

  pub nodes-Match :
      (q : K) (nodes : List (TableNode K V)) (j : ℕ) (k : K) (v : V)
      → (node_at nodes j).key ≡ some k
      → (node_at nodes j).val ≡ some v
      → keys.keyeq q k ≡ true
      → Match q (node_entries nodes)
  nodes-Match q [] j k v hk hv same = cc
  nodes-Match q (n ∷ nodes) zero k v hk hv same =
      Match-append_right q (node_entries nodes) (entry_of n.key n.val)
        (entry-Match q n.key n.val k v hk hv same)
  nodes-Match q (n ∷ nodes) (suc j) k v hk hv same =
      Match-append_left q (node_entries nodes) (entry_of n.key n.val)
        (nodes-Match q nodes j k v hk hv same)

  module _ (t : HashTableObj K V) (valid : IsTable t) (small : length t.array < 2 ^ 31) where
    pub slice-All :
        (slice : List (Option V)) (i : ℕ)
        → ((j : ℕ) → get_or slice j none ≡ get_or t.array (i + j) none)
        → All (λ e. Maps t e.0 (some e.1)) (slice_entries keys.setnumi i slice)
    slice-All [] i h = tt
    slice-All (none ∷ slice) i h = slice-All slice (suc i) (λ j.
        h (suc j) ∙ ap (λ n. get_or t.array n none) {x = i + suc j} {y = suc i + j} (omega arith))
    slice-All (some v ∷ slice) i h =
        let here : get_or t.array i none ≡ some v =
          ap (λ n. get_or t.array n none) {x = i} {y = i + 0} (omega arith) ∙ sym (h 0) in
        let inside = get_or-bound t.array i v here in
        let number = keys.numi-setnumi (suc i) (omega (arith, inside, small)) in
        (
          inl (
            i,
            array_slot-of (keys.setnumi (pos (suc i))) (length t.array) i number inside,
            here,
          ),
          slice-All slice (suc i) (λ j.
              h (suc j)
              ∙ ap (λ n. get_or t.array n none) {x = i + suc j} {y = suc i + j} (omega arith)),
        )

    entry-All :
        (i : ℕ) (o : Option K) (p : Option V)
        → (node_at t.node i).key ≡ o
        → (node_at t.node i).val ≡ p
        → All (λ e. Maps t e.0 (some e.1)) (entry_of o p)
    entry-All i none p ho hp = tt
    entry-All i (some k) none ho hp = tt
    entry-All i (some k) (some v) ho hp =
        (inr (valid.outside i k ho, inl (i, k, ho, keys.keyeq_refl k, hp)), tt)

    pub nodes-All :
        (nodes : List (TableNode K V)) (i : ℕ)
        → ((j : ℕ) → node_at nodes j ≡ node_at t.node (i + j))
        → All (λ e. Maps t e.0 (some e.1)) (node_entries nodes)
    nodes-All [] i h = tt
    nodes-All (n ∷ nodes) i h =
        let here : node_at t.node i ≡ n =
          ap (λ m. node_at t.node m) {x = i} {y = i + 0} (omega arith) ∙ sym (h 0) in
        All-append (λ e. Maps t e.0 (some e.1)) (node_entries nodes) (entry_of n.key n.val)
          (nodes-All nodes (suc i) (λ j.
            h (suc j) ∙ ap (λ m. node_at t.node m) {x = i + suc j} {y = suc i + j} (omega arith)))
          (entry-All i n.key n.val (key_eq here) (val_eq here))
