-- ===== src/HashTable/Access/Rebuild.antt =====
-- `resize` keeps what a table gives, when the new hash part has nodes enough.
use mathlib.Core.Path.{subst}
use dummyscheme.Common.{
  none, some, suc, [], ◌∷◌, ℕ, List, length, Option, ◌≡◌, refl, sym, ap, ◌∙◌, inl, inr, ◌⊎◌, ◌<◌,
  ◌≤◌, ◌+◌, ◌-◌, ◌^◌, arith, get_or, ◌++◌, All, true, false, take, drop, replicate, ltb, Bool-cases,
  Option-cases, take-of-length-le, length-take, length-append, length-replicate, ◌>>=◌,
  if◌then◌else◌, ltb-false→le, ltb→lt, get_or-grown, get_or-take, get_or-beyond, get_or-drop,
  drop-all,
}
use dummyscheme.Common.Int.{pos}
use dummyscheme.HashTable.Nodes.{HashTableObj, TableNode, Keys, node_at, empty_node}
use dummyscheme.HashTable.Nodes.Count.{used, used-replicate}
use dummyscheme.HashTable.Access.{
  array_slot, resize, setarrayvector, setnodevector, set_key, put_nodes,
}
use dummyscheme.HashTable.Access.Slots.{IsTable, Maps, Maps-unique, array_slot-of, array_slot-numi}
use dummyscheme.HashTable.Access.Removal.{Maps-congr}
use dummyscheme.HashTable.Access.Fresh.{setnodevector-IsValid, setnodevector-bare}
use dummyscheme.HashTable.Access.Entries.{
  entries, node_entries, slice_entries, put_all, put_all-append, put_slice-put_all,
  put_nodes-put_all, put_all-Maps, nodes_needed, final-agree, Match, Match-append_left,
  Match-append_right, bind_congr,
}
use dummyscheme.HashTable.Access.Origins.{
  slice-All, nodes-All, slice-Match, nodes-Match, All-append,
}

number_inj : (i j : ℕ) → some (pos (suc i)) ≡ some (pos (suc j)) → i ≡ j
number_inj i j e = cc

module _ {K V : Type 0} ⦃keys : Keys K⦄ (t : HashTableObj K V) (valid : IsTable t)
    (small : length t.array < 2 ^ 31) (nasize lsize : ℕ) where
  grown : HashTableObj K V
  grown = if ltb (length t.array) nasize then setarrayvector t nasize else t

  -- The table before the entries are put in.
  start : HashTableObj K V
  unfolding grown
  start = let fresh = setnodevector grown lsize in record fresh { array = take nasize fresh.array }

  grown-array :
      (nasize ≤ length grown.array) × ((i : ℕ) → get_or grown.array i none ≡ get_or t.array i none)
  unfolding grown setarrayvector
  grown-array = elim (Bool-cases (ltb (length t.array) nasize)) [
    | inl more ↦
        let same : grown.array ≡ t.array ++ replicate (nasize - length t.array) none =
          rw more refl in
        let len : length grown.array
            ≡ length (t.array ++ replicate (nasize - length t.array) none) =
          ap (λ (a : List (Option V)). length a) same in
        (
          omega (
            arith,
            len,
            length-append t.array (replicate (nasize - length t.array) none),
            length-replicate {A = Option V} (nasize - length t.array) none,
          ),
          λ i.
              ap (λ (a : List (Option V)). get_or a i none) same
              ∙ get_or-grown t.array (nasize - length t.array) i none,
        )
    | inr fits ↦
        let same : grown.array ≡ t.array = rw fits refl in
        (
          omega (
            arith,
            ap (λ (a : List (Option V)). length a) same,
            ltb-false→le (length t.array) nasize fits,
          ),
          λ i. ap (λ (a : List (Option V)). get_or a i none) same,
        )
  ]

  start-size : length start.array ≡ nasize
  unfolding start setnodevector
  start-size = omega (arith, length-take nasize grown.array, grown-array.0)

  start-array : (i : ℕ) → i < nasize → get_or start.array i none ≡ get_or t.array i none
  unfolding start setnodevector
  start-array i h = get_or-take nasize i grown.array none h ∙ grown-array.1 i

  start-bare : (i : ℕ) (k : K) → (node_at start.node i).key ≡ some k → ⊥
  unfolding start setnodevector
  start-bare i k there =
      let gone = ap (λ (n : TableNode K V). n.key) (setnodevector-bare grown lsize i) in cc

  start-nodes : (length start.node ≡ 2 ^ lsize) × (used start.node ≡ 0)
  unfolding start setnodevector
  start-nodes = (length-replicate (2 ^ lsize) empty_node, used-replicate K V (2 ^ lsize))

  start-IsTable : IsTable start
  unfolding start
  start-IsTable = record {
    hash = inr (
        let ok = setnodevector-IsValid grown lsize in
        record { size = ok.size; places = ok.places; first = ok.first; filled = ok.filled });
    outside = λ i k there. absurd (start-bare i k there);
  }

  -- What a key read before: it reads that at the start, or it has an entry.
  start-Maps :
      (q : K) (w : Option V)
      → Maps t q w
      → (u : Option V) × Maps start q u × ((u ≡ w) ⊎ Match q (entries t nasize))
  start-Maps q w m = elim (Option-cases (array_slot q (length start.array))) [
    | inr (i, there) ↦
        let (number, inside) = array_slot-numi q (length start.array) i there in
        let kept = start-array i (omega (arith, inside, start-size)) in
        (get_or start.array i none, inl (i, there, refl), at_slot i number kept m)
    | inl gone ↦
        (none, inr (gone, inr (λ i k there. absurd (start-bare i k there), refl)), no_slot gone w m)
  ]
    where
      at_node :
          (i : ℕ) (k : K)
          → (node_at t.node i).key ≡ some k
          → keys.keyeq q k ≡ true
          → (o : Option V) → (node_at t.node i).val ≡ o
          → (none ≡ o) ⊎ Match q (entries t nasize)
      at_node i k held same none val = inl refl
      at_node i k held same (some v) val = inr (
          Match-append_right q (slice_entries keys.setnumi nasize (drop nasize t.array))
            (node_entries t.node) (nodes-Match q t.node i k v held val same))

      at_slot :
          (i : ℕ)
          → keys.numi q ≡ some (pos (suc i))
          → get_or start.array i none ≡ get_or t.array i none
          → Maps t q w
          → (get_or start.array i none ≡ w) ⊎ Match q (entries t nasize)
      at_slot i number kept (inl (j, s, e)) =
          let same = number_inj i j (sym number ∙ (array_slot-numi q (length t.array) j s).0) in
          inl (kept ∙ ap (λ n. get_or t.array n none) same ∙ e)
      at_slot i number kept (inr (s, r)) = elim (Bool-cases (ltb i (length t.array))) [
        | inl below ↦
            let slot =
              array_slot-of q (length t.array) i number (ltb→lt i (length t.array) below) in
            cc
        | inr beyond ↦
            let bare =
              kept ∙ get_or-beyond t.array i none (ltb-false→le i (length t.array) beyond) in
            elim r [
              | inl (n, k, held, same, val) ↦ elim (at_node n k held same w val) [
                | inl e ↦ inl (bare ∙ e)
                | inr match ↦ inr match
              ]
              | inr (absent, e) ↦ inl (bare ∙ sym e)
            ]
      ]

      no_slot :
          array_slot q (length start.array) ≡ none
          → (o : Option V) → Maps t q o
          → (none ≡ o) ⊎ Match q (entries t nasize)
      no_slot gone none m = inl refl
      no_slot gone (some v) (inl (j, s, e)) =
          let (number, inside) = array_slot-numi q (length t.array) j s in
          let beyond : nasize ≤ j = elim (Bool-cases (ltb j nasize)) [
            | inl below ↦
                let slot =
                  array_slot-of q (length start.array) j number
                    (omega (arith, start-size, ltb→lt j nasize below)) in
                cc
            | inr above ↦ ltb-false→le j nasize above
          ] in
          let there : j ≡ nasize + (j - nasize) = omega (arith, beyond) in
          inr (
            Match-append_left q (slice_entries keys.setnumi nasize (drop nasize t.array))
              (node_entries t.node)
              (slice-Match q (drop nasize t.array) nasize (j - nasize) v
                (get_or-drop nasize (j - nasize) t.array none
                  ∙ ap (λ n. get_or t.array n none) (sym there)
                  ∙ e)
                (number ∙ ap (λ (n : ℕ). some (pos (suc n))) there)))
      no_slot gone (some v) (inr (s, inl (i, k, held, same, val))) =
          at_node i k held same (some v) val
      no_slot gone (some v) (inr (s, inr (absent, e))) = cc

  entries-All : All (λ e. Maps t e.0 (some e.1)) (entries t nasize)
  entries-All =
      All-append (λ e. Maps t e.0 (some e.1))
        (slice_entries keys.setnumi nasize (drop nasize t.array)) (node_entries t.node)
        (slice-All t valid small (drop nasize t.array) nasize
          (λ j. get_or-drop nasize j t.array none))
        (nodes-All t valid small t.node 0
          (λ j. ap (λ n. node_at t.node n) {x = j} {y = 0 + j} (omega arith)))

  All-map :
      (P Q : K × V → Type 0) (l : List (K × V)) → ((e : K × V) → P e → Q e) → All P l → All Q l
  All-map P Q [] h all = tt
  All-map P Q (e ∷ l) h all = (h e all.0, All-map P Q l h all.1)

  -- The entries put into the new parts give what the table gave.
  rebuilt :
      (fuel : ℕ)
      → nodes_needed nasize (entries t nasize) ≤ 2 ^ lsize
      → (after : HashTableObj K V) × (put_all (set_key (suc fuel)) (entries t nasize) start
          ≡ some after)
        × IsTable after
        × (length after.array ≡ nasize)
        × ((used after.node ≤ nodes_needed nasize (entries t nasize))
            × (length after.node ≡ 2 ^ lsize))
        × ((q : K) (w : Option V) → Maps t q w → Maps after q w)
  rebuilt fuel room =
      let (len, none_used) = start-nodes in
      let same = ap (λ (n : ℕ). nodes_needed n (entries t nasize)) start-size in
      let (after, run, table, size, (few, nodes), maps) =
        put_all-Maps fuel (entries t nasize) start start-IsTable
          (omega (arith, room, len, none_used, same)) in
      (
        after,
        run,
        table,
        size ∙ start-size,
        (omega (arith, few, none_used, same), nodes ∙ len),
        λ q w m.
            let (u, begins, from) = start-Maps q w m in
            let agree =
              All-map (λ e. Maps t e.0 (some e.1)) (λ e. keys.keyeq q e.0 ≡ true → some e.1 ≡ w)
                (entries t nasize)
                (λ e reads equal.
                  Maps-unique t q (some e.1) w valid
                    (Maps-congr t valid e.0 q (some e.1) equal reads) m)
                entries-All in
            subst (λ x. Maps after q x) (final-agree (entries t nasize) q u w agree from)
              (maps q u begins),
      )

  nodes_needed-append :
      (l m : List (K × V))
      → nodes_needed nasize (l ++ m) ≡ nodes_needed nasize l + nodes_needed nasize m
  nodes_needed-append [] m = omega arith
  nodes_needed-append (e ∷ l) m = omega (arith, nodes_needed-append l m)

  grown-fits : ltb nasize (length t.array) ≡ false → length grown.array ≤ nasize
  unfolding grown setarrayvector
  grown-fits kept = elim (Bool-cases (ltb (length t.array) nasize)) [
    | inl more ↦
        let same : grown.array ≡ t.array ++ replicate (nasize - length t.array) none =
          rw more refl in
        omega (
          arith,
          ap (λ (a : List (Option V)). length a) same,
          length-append t.array (replicate (nasize - length t.array) none),
          length-replicate {A = Option V} (nasize - length t.array) none,
          ltb→lt (length t.array) nasize more,
        )
    | inr fits ↦
        let same : grown.array ≡ t.array = rw fits refl in
        omega (
          arith,
          ap (λ (a : List (Option V)). length a) same,
          ltb-false→le nasize (length t.array) kept,
        )
  ]

  -- Without a shrinking array part there is no slice, and no slot is cut off.
  start-fresh : ltb nasize (length t.array) ≡ false → start ≡ setnodevector grown lsize
  unfolding start setnodevector
  start-fresh kept =
      ap (λ (a : List (Option V)). record (setnodevector grown lsize) { array = a })
        (take-of-length-le nasize grown.array (grown-fits kept))

  module _ (fuel : ℕ) (room : nodes_needed nasize (entries t nasize) ≤ 2 ^ lsize) where
    slice_put :
        (u : HashTableObj K V) × (put_all
            (set_key (suc fuel))
            (slice_entries keys.setnumi nasize (drop nasize t.array))
            start
          ≡ some u)
        × (take nasize u.array ≡ u.array)
    slice_put =
        let (len, none_used) = start-nodes in
        let whole =
          nodes_needed-append (slice_entries keys.setnumi nasize (drop nasize t.array))
            (node_entries t.node) in
        let same =
          ap (λ (n : ℕ). nodes_needed n (slice_entries keys.setnumi nasize (drop nasize t.array)))
            start-size in
        let (u, run, table, size, few, maps) =
          put_all-Maps fuel (slice_entries keys.setnumi nasize (drop nasize t.array)) start
            start-IsTable (omega (arith, room, len, none_used, whole, same)) in
        (u, run, take-of-length-le nasize u.array (omega (arith, size, start-size)))

    -- The two loops one after the other.
    both_loops : put_all (set_key (suc fuel)) (entries t nasize) start ≡ (
        put_all (set_key (suc fuel)) (slice_entries keys.setnumi nasize (drop nasize t.array)) start
        >>= put_nodes (set_key (suc fuel)) t.node)
    both_loops =
        put_all-append (set_key (suc fuel))
          (slice_entries keys.setnumi nasize (drop nasize t.array)) (node_entries t.node) start
        ∙ bind_congr
            (put_all (set_key (suc fuel)) (slice_entries keys.setnumi nasize (drop nasize t.array))
              start)
            (put_all (set_key (suc fuel)) (node_entries t.node))
            (put_nodes (set_key (suc fuel)) t.node)
            (λ u. sym (put_nodes-put_all (set_key (suc fuel)) t.node u))

    resize-put_all :
        resize (set_key (suc fuel)) t nasize lsize
        ≡ put_all (set_key (suc fuel)) (entries t nasize) start
    unfolding resize start grown
    resize-put_all = elim (Bool-cases (ltb nasize (length t.array))) [
      | inl shrinks ↦
          let (u, run, trimmed) = slice_put in
          let ran =
            put_slice-put_all (set_key (suc fuel)) keys.setnumi nasize (drop nasize t.array) start
            ∙ run in
          let again : record u { array = take nasize u.array } ≡ u =
            ap (λ (a : List (Option V)). record u { array = a }) trimmed in
          rw (resize, shrinks, ran, again)
            (sym (both_loops ∙ ap (λ o. o >>= put_nodes (set_key (suc fuel)) t.node) run))
      | inr kept ↦
          let no_slice : slice_entries keys.setnumi nasize (drop nasize t.array) ≡ [] =
            ap (λ l. slice_entries keys.setnumi nasize l)
              (drop-all nasize t.array (ltb-false→le nasize (length t.array) kept)) in
          rw (resize, kept)
            (sym (
              both_loops
              ∙ ap
                  (λ l.
                    put_all (set_key (suc fuel)) l start >>= put_nodes (set_key (suc fuel)) t.node)
                  no_slice
              ∙ ap (λ u. put_nodes (set_key (suc fuel)) t.node u) (start-fresh kept)))
    ]

  -- `resize` to sizes with enough nodes for the keys without a slot of the new array part.
  pub resize-Maps :
      (fuel : ℕ)
      → nodes_needed nasize (entries t nasize) ≤ 2 ^ lsize
      → (after : HashTableObj K V) × (resize (set_key (suc fuel)) t nasize lsize ≡ some after)
        × IsTable after
        × (length after.array ≡ nasize)
        × ((used after.node ≤ nodes_needed nasize (entries t nasize))
            × (length after.node ≡ 2 ^ lsize))
        × ((q : K) (w : Option V) → Maps t q w → Maps after q w)
  resize-Maps fuel room =
      let (after, run, table, size, few, maps) = rebuilt fuel room in
      (after, resize-put_all fuel room ∙ run, table, size, few, maps)
