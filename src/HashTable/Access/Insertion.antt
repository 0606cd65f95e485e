-- ===== src/HashTable/Access/Insertion.antt =====
-- `set` of a key that is there, or for which the table has room.
use mathlib.Core.Path.{subst}
use dummyscheme.Common.{
  ◌>>=◌, none, some, suc, ℕ, length, arith, inl, inr, ◌≡◌, ◌≢◌, refl, sym, ap, ◌∙◌, false,
  Bool-cases, ==→eq, ==-false→ne, ◌==◌, get_or, Option-cases, ◌<◌, ◌+◌, ◌^◌, List, ◌≤◌, Option,
  some_inj,
}
use dummyscheme.HashTable.Nodes.{
  HashTableObj, Keys, node_at, mainposition, with_firstfree, insertkey, TableNode,
}
use dummyscheme.HashTable.Nodes.Insert.{Inserts}
use dummyscheme.HashTable.Nodes.Lookup.{IsValid}
use dummyscheme.HashTable.Nodes.Insert.{Absent}
use dummyscheme.HashTable.Nodes.Insertkey.{Inserted, insertkey-Inserted}
use dummyscheme.HashTable.Nodes.Free.{getfreepos-Scans, with_firstfree-IsValid}
use dummyscheme.HashTable.Access.{
  insert_or, rehash, array_slot, rawget, set_key, room_for, write_array, write_node, write_slot,
  in_array,
}
use dummyscheme.HashTable.Access.Reads.{Reads-Inserts}
use dummyscheme.HashTable.Access.Slots.{IsTable, rawget-Raw, array_slot_congr}
use dummyscheme.HashTable.Nodes.Count.{used, used-Full}
use dummyscheme.HashTable.Access.Writes.{
  needs_node, Writes, if_rw, write_array-Writes, write_node-Writes,
}

module _ {K V : Type 0} ⦃keys : Keys K⦄ (t : HashTableObj K V) (valid : IsTable t) (k : K) where
  pub insert-Writes :
      (v : V) (u : HashTableObj K V)
      → array_slot k (length t.array) ≡ none
      → u.array ≡ t.array
      → u.node ≡ t.node
      → IsValid u
      → (after : HashTableObj K V) → Inserted u k v after
      → Writes t k (some v) after
  insert-Writes v u gone same_array same_node ok after ins =
      let same : after.array ≡ t.array = ins.array ∙ same_array in
      let added = subst (λ n. Inserts k v (node_at n) (node_at after.node)) same_node ins.inserts in
      let slot_same : (q : K) → array_slot q (length after.array) ≡ array_slot q (length t.array) =
        λ q. ap (λ a. array_slot q (length a)) same in
      record {
        table = record {
          hash = inr ins.valid;
          outside = λ j o held. slot_same o ∙ elim (Bool-cases (j == added.new)) [
            | inl first ↦
                let is_k : some k ≡ some o =
                  sym added.new_key
                  ∙ ap (λ n. (node_at after.node n).key) (sym (==→eq j added.new first))
                  ∙ held in
                subst (λ n. array_slot n (length t.array) ≡ none) (some_inj is_k) gone
            | inr other ↦
                valid.outside (added.src j) o
                  (added.back j o (==-false→ne j added.new other) held).0
          ];
        };
        size = ap (λ a. length a) same;
        nodes =
            ins.valid.size
            ∙ ap (λ (n : ℕ). 2 ^ n) ins.lsizenode
            ∙ sym ok.size
            ∙ ap (λ (n : List (TableNode K V)). length n) same_node;
        count = omega (
          arith,
          ins.count,
          ap (λ (n : List (TableNode K V)). used n) same_node,
          ap (λ (o : Option ℕ). needs_node o) gone,
        );
        maps = λ q w m. elim m [
          | inl (j, s, e) ↦
              if_rw after q (keys.keyeq q k) false (some v) w (apart_slot q j s gone)
                (inl (j, slot_same q ∙ s, ap (λ a. get_or a j none) same ∙ e))
          | inr (s, r) ↦
              inr (
                slot_same q ∙ s,
                Reads-Inserts (node_at t.node) (node_at after.node) k v q w added r,
              )
        ];
      }
    where
      apart_slot :
          (q : K) (j : ℕ)
          → array_slot q (length t.array) ≡ some j
          → array_slot k (length t.array) ≡ none
          → keys.keyeq q k ≡ false
      apart_slot q j s free = elim (Bool-cases (keys.keyeq q k)) [
        | inl equal ↦ let e = array_slot_congr q k (length t.array) equal in cc
        | inr differ ↦ differ
      ]

  -- When there is room, a new key is inserted.
  room-Writes :
      (v : V) (u : HashTableObj K V)
      → array_slot k (length t.array) ≡ none
      → Absent (node_at t.node) k
      → room_for t k ≡ some u
      → (after : HashTableObj K V) × (insertkey u k v ≡ some after) × Writes t k (some v) after
  unfolding room_for
  room-Writes v u gone absent room = elim valid.hash [
    | inl empty ↦ let no : room_for t k ≡ none = rw (room_for, empty) refl in cc
    | inr ok ↦
        let some_nodes : (length t.node == 0) ≡ false = ground (arith, ok.first) in
        elim (Option-cases (node_at t.node (mainposition t.lsizenode k)).key) [
          | inl bare ↦
              let is_t : t ≡ u = some_inj (sym (rw (room_for, some_nodes, bare) refl) ∙ room) in
              let (after, run, ins) =
                insertkey-Inserted t ok k v absent (λ used. absurd (used bare)) in
              (
                after,
                subst (λ n. insertkey n k v ≡ some after) is_t run,
                insert-Writes v t gone refl refl ok after ins,
              )
          | inr (stored, held) ↦ elim (getfreepos-Scans t ok) [
            | inl (none_free, full) ↦
                let no : room_for t k ≡ none = rw (room_for, some_nodes, held, none_free) refl in cc
            | inr (n, got, inside, free, full) ↦
                let moved = with_firstfree t n in
                let is_moved : moved ≡ u =
                  some_inj (sym (rw (room_for, some_nodes, held, got) refl) ∙ room) in
                let ok_moved = with_firstfree-IsValid t ok n inside full in
                let (after, run, ins) =
                  insertkey-Inserted moved ok_moved k v absent λ used none_free.
                    elim (getfreepos-Scans moved ok_moved) [
                      | inl (none_left, all) ↦ all n (omega arith) inside free
                      | inr (m, taken, below, bare, rest) ↦ cc
                    ] in
                (
                  after,
                  subst (λ w. insertkey w k v ≡ some after) is_moved run,
                  insert-Writes v moved gone refl refl ok_moved after ins,
                )
          ]
        ]
  ]

  -- `set` of a key that is there, or for which there is room.
  pub set_key-Writes :
      (fuel : ℕ) (v : V)
      → (rawget t k ≡ some none → room_for t k ≢ none)
      → (after : HashTableObj K V) × (set_key (suc fuel) t k v ≡ some after)
        × Writes t k (some v) after
  unfolding set_key write_slot insert_or
  set_key-Writes fuel v room = elim (rawget-Raw t k valid.hash) [
    | inl (i, there, run) ↦ (
      write_array t i (some v),
      rw (set_key, there) refl,
      write_array-Writes t valid k i (some v) there,
    )
    | inr (gone, inl (i, stored, held, same, run)) ↦ (
      write_node t i (some v),
      rw (set_key, gone, run) refl,
      write_node-Writes t valid k i stored (some v) gone held same,
    )
    | inr (gone, inr (absent, run)) ↦ elim (Option-cases (room_for t k)) [
      | inl full ↦ absurd (room run full)
      | inr (u, some_room) ↦
          let (after, inserted, writes) = room-Writes v u gone absent some_room in
          (
            after,
            rw (set_key, gone, run)
                (ap (λ r. insert_or r (rehash (set_key fuel) t >>= λ x. set_key fuel x k v) k v)
                    some_room
                  ∙ inserted),
            writes,
          )
    ]
  ]

  -- A table with fewer keys in nodes than nodes has room.
  pub used-room : used t.node < length t.node → room_for t k ≢ none
  unfolding room_for
  used-room few = elim valid.hash [
    | inl empty ↦ absurd (omega (arith, few, ap (λ (n : List (TableNode K V)). length n) empty))
    | inr ok ↦
        let some_nodes : (length t.node == 0) ≡ false = ground (arith, few) in
        elim (Option-cases (node_at t.node (mainposition t.lsizenode k)).key) [
          | inl bare ↦
              let found : room_for t k ≡ some t = rw (room_for, some_nodes, bare) refl in λ gone. cc
          | inr (stored, held) ↦ elim (getfreepos-Scans t ok) [
            | inl (none_free, full) ↦
                let all = used-Full t.node (λ j below bare. full j (omega arith) below bare) in
                absurd (omega (arith, few, all))
            | inr (n, got, inside, free, full) ↦
                let found : room_for t k ≡ some (with_firstfree t n) =
                  rw (room_for, some_nodes, held, got) refl in
                λ gone. cc
          ]
        ]
  ]

  -- `set` of any key for which the table has a node when it needs one.
  pub set_key-room :
      (fuel : ℕ) (v : V)
      → used t.node + needs_node (array_slot k (length t.array)) ≤ length t.node
      → (after : HashTableObj K V) × (set_key (suc fuel) t k v ≡ some after)
        × Writes t k (some v) after
  set_key-room fuel v few = set_key-Writes fuel v λ absent. elim (rawget-Raw t k valid.hash) [
    | inl (i, there, run) ↦ let e : some (some (in_array i)) ≡ some none = sym run ∙ absent in cc
    | inr (gone, _) ↦ used-room (omega (arith, few, ap (λ (o : Option ℕ). needs_node o) gone))
  ]
