-- ===== src/HashTable/Access/Removal.antt =====
-- `remove` changes what a table gives for one key.
use dummyscheme.Common.{
  none, some, length, Option, inl, inr, ◌≡◌, refl, ◌∙◌, true, false, Bool-cases, get_or,
  Option-cases, arith,
}
use dummyscheme.HashTable.Nodes.{HashTableObj, Keys, node_at}
use dummyscheme.HashTable.Access.{live, get, slot_val, write_array, write_node, write_slot, remove}
use dummyscheme.HashTable.Access.Slots.{IsTable, Maps, rawget-Raw, array_slot_congr}
use dummyscheme.HashTable.Access.Writes.{Writes, if_rw, write_array-Writes, write_node-Writes}

module _ {K V : Type 0} ⦃keys : Keys K⦄ (t : HashTableObj K V) (valid : IsTable t) (k : K) where
  -- Equal keys read the same.
  pub Maps-congr : (q : K) (w : Option V) → keys.keyeq q k ≡ true → Maps t k w → Maps t q w
  Maps-congr q w same (inl (i, s, e)) = inl (i, array_slot_congr q k (length t.array) same ∙ s, e)
  Maps-congr q w same (inr (s, inl (i, o, held, eq, e))) = inr (
    array_slot_congr q k (length t.array) same ∙ s,
    inl (i, o, held, keys.keyeq_trans q k o same eq, e),
  )
  Maps-congr q w same (inr (s, inr (absent, e))) = inr (
    array_slot_congr q k (length t.array) same ∙ s,
    inr (
      λ j o held. elim (Bool-cases (keys.keyeq q o)) [
        | inl equal ↦
            let yes = keys.keyeq_trans k q o (keys.keyeq_symm q k same) equal in
            let differ = absent j o held in cc
        | inr differ ↦ differ
      ],
      e,
    ),
  )

  unchanged-Writes : Maps t k none → Writes t k none t
  unchanged-Writes nothing = record {
    table = valid;
    size = refl;
    nodes = refl;
    count = omega arith;
    maps = λ q w m. elim (Bool-cases (keys.keyeq q k)) [
      | inl same ↦ if_rw t q (keys.keyeq q k) true none w same (Maps-congr q none same nothing)
      | inr differ ↦ if_rw t q (keys.keyeq q k) false none w differ m
    ];
  }

  -- `remove` gives whether the key was there; afterwards equal keys read nothing.
  pub remove-Writes :
      (after : HashTableObj K V) × (w : Option V) × (remove t k ≡ some (after, live w))
      × (get t k ≡ some w)
      × Writes t k none after
  unfolding remove slot_val write_slot get live
  remove-Writes = elim (rawget-Raw t k valid.hash) [
    | inl (i, there, run) ↦ elim (Option-cases (get_or t.array i none)) [
      | inl bare ↦ (
        t,
        none,
        rw (remove, run, bare) refl,
        rw (get, run, bare) refl,
        unchanged-Writes (inl (i, there, bare)),
      )
      | inr (v, held) ↦ (
        write_array t i none,
        some v,
        rw (remove, run, held) refl,
        rw (get, run, held) refl,
        write_array-Writes t valid k i none there,
      )
    ]
    | inr (gone, inl (i, stored, is_key, same, run)) ↦ elim (Option-cases (node_at t.node i).val) [
      | inl bare ↦ (
        t,
        none,
        rw (remove, run, bare) refl,
        rw (get, run, bare) refl,
        unchanged-Writes (inr (gone, inl (i, stored, is_key, same, bare))),
      )
      | inr (v, held) ↦ (
        write_node t i none,
        some v,
        rw (remove, run, held) refl,
        rw (get, run, held) refl,
        write_node-Writes t valid k i stored none gone is_key same,
      )
    ]
    | inr (gone, inr (absent, run)) ↦ (
      t,
      none,
      rw (remove, run) refl,
      rw (get, run) refl,
      unchanged-Writes (inr (gone, inr (absent, refl))),
    )
  ]
