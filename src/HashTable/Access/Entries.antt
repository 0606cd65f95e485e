-- ===== src/HashTable/Access/Entries.antt =====
-- The entries that `resize` puts in again, and what is read after a sequence of them.
use dummyscheme.Common.{
  drop, none, some, suc, [], ◌∷◌, ℕ, List, length, Option, ◌≡◌, refl, sym, ap, ◌∙◌, inl, inr, ◌⊎◌,
  ◌≤◌, ◌+◌, arith, ◌++◌, All, ◌>>=◌, Bool-cases, if◌then◌else◌, true,
}
use dummyscheme.Common.Int.{ℤ, pos}
use dummyscheme.HashTable.Nodes.{HashTableObj, TableNode, Keys}
use dummyscheme.HashTable.Nodes.Count.{used}
use dummyscheme.HashTable.Access.{array_slot, set_key, put_slice, put_nodes, put_entry}
use dummyscheme.HashTable.Access.Slots.{IsTable, Maps}
use dummyscheme.HashTable.Access.Writes.{needs_node}
use dummyscheme.HashTable.Access.Insertion.{set_key-room}

pub bind_congr :
    {A B : Type 0} (o : Option A) (f g : A → Option B)
    → ((a : A) → f a ≡ g a)
    → (o >>= f) ≡ (o >>= g)
bind_congr none f g h = refl
bind_congr (some a) f g h = h a

module _ {K V : Type 0} where
  abbrev pub entry_of : Option K → Option V → List (K × V)
  entry_of (some k) (some v) = (k, v) ∷ []
  entry_of none v = []
  entry_of (some k) none = []

  abbrev pub node_entries : List (TableNode K V) → List (K × V)
  node_entries [] = []
  node_entries (n ∷ nodes) = node_entries nodes ++ entry_of n.key n.val

  abbrev pub slice_entries : (ℤ → K) → ℕ → List (Option V) → List (K × V)
  slice_entries number i [] = []
  slice_entries number i (none ∷ slice) = slice_entries number (suc i) slice
  slice_entries number i (some v ∷ slice) =
      (number (pos (suc i)), v) ∷ slice_entries number (suc i) slice

  module _ (put : HashTableObj K V → K → V → Option (HashTableObj K V)) where
    abbrev pub put_all : List (K × V) → HashTableObj K V → Option (HashTableObj K V)
    put_all [] t = some t
    put_all (e ∷ l) t = put t e.0 e.1 >>= put_all l

    bind_assoc :
        (o : Option (HashTableObj K V)) (l m : List (K × V))
        → ((t : HashTableObj K V) → put_all (l ++ m) t ≡ (put_all l t >>= put_all m))
        → (o >>= put_all (l ++ m)) ≡ ((o >>= put_all l) >>= put_all m)
    bind_assoc none l m h = refl
    bind_assoc (some t) l m h = h t

    pub put_all-append :
        (l m : List (K × V)) (t : HashTableObj K V)
        → put_all (l ++ m) t ≡ (put_all l t >>= put_all m)
    put_all-append [] m t = refl
    put_all-append (e ∷ l) m t = bind_assoc (put t e.0 e.1) l m (put_all-append l m)

    pub put_slice-put_all :
        (number : ℤ → K) (i : ℕ) (slice : List (Option V)) (t : HashTableObj K V)
        → put_slice put number i slice t ≡ put_all (slice_entries number i slice) t
    unfolding put_slice
    put_slice-put_all number i [] t = refl
    put_slice-put_all number i (none ∷ slice) t = put_slice-put_all number (suc i) slice t
    put_slice-put_all number i (some v ∷ slice) t =
        bind_congr (put t (number (pos (suc i))) v) (put_slice put number (suc i) slice)
          (put_all (slice_entries number (suc i) slice)) (put_slice-put_all number (suc i) slice)

    put_entry-put_all :
        (k : Option K) (v : Option V) (t : HashTableObj K V)
        → put_entry put k v t ≡ put_all (entry_of k v) t
    unfolding put_entry
    put_entry-put_all none v t = refl
    put_entry-put_all (some k) none t = refl
    put_entry-put_all (some k) (some v) t = unit (put t k v)
      where
        unit : (o : Option (HashTableObj K V)) → o ≡ (o >>= λ u. some u)
        unit none = refl
        unit (some u) = refl

    pub put_nodes-put_all :
        (nodes : List (TableNode K V)) (t : HashTableObj K V)
        → put_nodes put nodes t ≡ put_all (node_entries nodes) t
    unfolding put_nodes
    put_nodes-put_all [] t = refl
    put_nodes-put_all (n ∷ nodes) t =
        ap (λ o. o >>= put_entry put n.key n.val) (put_nodes-put_all nodes t)
        ∙ bind_congr (put_all (node_entries nodes) t) (put_entry put n.key n.val)
            (put_all (entry_of n.key n.val)) (put_entry-put_all n.key n.val)
        ∙ sym (put_all-append (node_entries nodes) (entry_of n.key n.val) t)

module _ {K V : Type 0} ⦃keys : Keys K⦄ where
  -- What a key reads after the entries, when it read `w` before.
  abbrev pub final : List (K × V) → K → Option V → Option V
  final [] q w = w
  final (e ∷ l) q w = final l q (if keys.keyeq q e.0 then some e.1 else w)

  -- The entries in the order in which they are put in.
  abbrev pub entries : HashTableObj K V → ℕ → List (K × V)
  entries t nasize = slice_entries keys.setnumi nasize (drop nasize t.array) ++ node_entries t.node

  abbrev pub Match : K → List (K × V) → Type 0
  Match q [] = ⊥
  Match q (e ∷ l) = (keys.keyeq q e.0 ≡ true) ⊎ Match q l

  pub Match-append_left : (q : K) (l m : List (K × V)) → Match q l → Match q (l ++ m)
  Match-append_left q [] m h = absurd h
  Match-append_left q (e ∷ l) m (inl h) = inl h
  Match-append_left q (e ∷ l) m (inr h) = inr (Match-append_left q l m h)

  pub Match-append_right : (q : K) (l m : List (K × V)) → Match q m → Match q (l ++ m)
  Match-append_right q [] m h = h
  Match-append_right q (e ∷ l) m h = inr (Match-append_right q l m h)

  -- When the entries for a key agree, it reads what they say.
  pub final-agree :
      (l : List (K × V)) (q : K) (u w : Option V)
      → All (λ e. keys.keyeq q e.0 ≡ true → some e.1 ≡ w) l
      → (u ≡ w) ⊎ Match q l
      → final l q u ≡ w
  final-agree [] q u w agree (inl e) = e
  final-agree [] q u w agree (inr m) = absurd m
  final-agree (e ∷ l) q u w agree from = elim (Bool-cases (keys.keyeq q e.0)) [
    | inl same ↦ final-agree l q _ w agree.1 (inl (rw same (agree.0 same)))
    | inr differ ↦ final-agree l q _ w agree.1 (elim from [
      | inl start ↦ inl (rw differ start)
      | inr (inl match) ↦ cc
      | inr (inr later) ↦ inr later
    ])
  ]

  -- The entries that have no slot in an array part of the size.
  abbrev pub nodes_needed : ℕ → List (K × V) → ℕ
  nodes_needed size [] = 0
  nodes_needed size (e ∷ l) = needs_node (array_slot e.0 size) + nodes_needed size l

  pub put_all-Maps :
      (fuel : ℕ) (l : List (K × V)) (t : HashTableObj K V)
      → IsTable t
      → used t.node + nodes_needed (length t.array) l ≤ length t.node
      → (after : HashTableObj K V) × (put_all (set_key (suc fuel)) l t ≡ some after)
        × IsTable after
        × (length after.array ≡ length t.array)
        × ((used after.node ≤ used t.node + nodes_needed (length t.array) l)
            × (length after.node ≡ length t.node))
        × ((q : K) (w : Option V) → Maps t q w → Maps after q (final l q w))
  put_all-Maps fuel [] t valid few = (t, refl, valid, refl, (omega arith, refl), λ q w m. m)
  put_all-Maps fuel (e ∷ l) t valid few =
      let (u, run, writes) = set_key-room t valid e.0 fuel e.1 (omega (arith, few)) in
      let same = ap (λ (n : ℕ). nodes_needed n l) writes.size in
      let (after, ran, table, size, (count, nodes), maps) =
        put_all-Maps fuel l u writes.table (omega (arith, few, writes.count, writes.nodes, same)) in
      (
        after,
        rw run ran,
        table,
        size ∙ writes.size,
        (omega (arith, count, writes.count, same), nodes ∙ writes.nodes),
        λ q w m. maps q (if keys.keyeq q e.0 then some e.1 else w) (writes.maps q w m),
      )
