-- ===== src/HashTable/Access/Slots.antt =====
-- A table as a map: `get` reads it, in the array part or in the hash part.
use dummyscheme.Common.{
  none, some, zero, suc, ℕ, length, Option, arith, inl, inr, ◌⊎◌, ◌≡◌, refl, sym, ap, ◌∙◌, ◌<◌,
  true, false, Bool-cases, get_or, Option-cases, ltb, lt→ltb, ltb→lt, some_inj,
}
use dummyscheme.Common.Int.{ℤ, pos, negsuc}
use dummyscheme.Bytevector.{int32}
use dummyscheme.HashTable.Nodes.{HashTableObj, Keys, node_at}
use dummyscheme.HashTable.Access.{array_slot, rawget, get, slot_val, Slot, in_array, in_node}
use dummyscheme.HashTable.Access.Reads.{
  Reads, Reads-unique, HashPart, HashPart-Finds, HashPart-IsUnique,
}

module _ {K : Type 0} ⦃keys : Keys K⦄ where
  pub array_slot-numi :
      (k : K) (size i : ℕ)
      → array_slot k size ≡ some i
      → (keys.numi k ≡ some (pos (suc i))) × (i < size)
  unfolding array_slot
  array_slot-numi k size i h = elim (Option-cases (keys.numi k)) [
    | inl gone ↦ let e : array_slot k size ≡ none = rw (array_slot, gone) refl in cc
    | inr (z, there) ↦ let fits = keys.numi-fits k z there in by_sign z there fits
  ]
    where
      by_sign :
          (z : ℤ)
          → keys.numi k ≡ some z
          → int32 z ≡ z
          → (keys.numi k ≡ some (pos (suc i))) × (i < size)
      by_sign (negsuc n) there fits =
          let e : array_slot k size ≡ none = rw (array_slot, there, fits) refl in cc
      by_sign (pos zero) there fits =
          let e : array_slot k size ≡ none = rw (array_slot, there) refl in cc
      by_sign (pos (suc n)) there fits = elim (Bool-cases (ltb n size)) [
        | inl below ↦
            let e : array_slot k size ≡ some n = rw (array_slot, there, fits, below) refl in
            let same : n ≡ i = some_inj (sym e ∙ h) in
            (
              there ∙ ap (λ (t : ℕ). some (pos (suc t))) same,
              omega (arith, same, ltb→lt n size below),
            )
        | inr beyond ↦
            let e : array_slot k size ≡ none = rw (array_slot, there, fits, beyond) refl in cc
      ]

  pub array_slot-of :
      (k : K) (size i : ℕ)
      → keys.numi k ≡ some (pos (suc i))
      → i < size
      → array_slot k size ≡ some i
  unfolding array_slot
  array_slot-of k size i there h =
      rw (array_slot, there, keys.numi-fits k (pos (suc i)) there, lt→ltb i size h) refl

  pub array_slot_congr :
      (a b : K) (size : ℕ) → keys.keyeq a b ≡ true → array_slot a size ≡ array_slot b size
  unfolding array_slot
  array_slot_congr a b size e = rw (array_slot, keys.keyeq-numi a b e) refl

  -- Two keys with the same slot of the array part are equal.
  pub array_slot-keyeq :
      (a b : K) (size i : ℕ)
      → array_slot a size ≡ some i
      → array_slot b size ≡ some i
      → keys.keyeq a b ≡ true
  array_slot-keyeq a b size i ha hb =
      let number = keys.setnumi (pos (suc i)) in
      let an = keys.keyeq-setnumi a (pos (suc i)) (array_slot-numi a size i ha).0 in
      let bn = keys.keyeq-setnumi b (pos (suc i)) (array_slot-numi b size i hb).0 in
      keys.keyeq_trans a number b an (keys.keyeq_symm b number bn)

module _ {K V : Type 0} ⦃keys : Keys K⦄ where
  -- The invariant of a table: the hash part's, and that no key of the array part stands in a node.
  pub record IsTable (t : HashTableObj K V) : Type 0 where
    pub hash : HashPart t
    pub outside :
        (i : ℕ) (k : K) → (node_at t.node i).key ≡ some k → array_slot k (length t.array) ≡ none

  -- What a key reads from a table.
  abbrev pub Maps : HashTableObj K V → K → Option V → Type 0
  Maps t q w =
      ((i : ℕ) × (array_slot q (length t.array) ≡ some i) × (get_or t.array i none ≡ w))
      ⊎ ((array_slot q (length t.array) ≡ none) × Reads (node_at t.node) q w)

  pub Maps-unique :
      (t : HashTableObj K V) (q : K) (w u : Option V) → IsTable t → Maps t q w → Maps t q u → w ≡ u
  Maps-unique t q w u valid (inl (i, s, e)) (inl (j, r, d)) =
      sym e ∙ ap (λ m. get_or t.array m none) (some_inj (sym s ∙ r)) ∙ d
  Maps-unique t q w u valid (inl (i, s, e)) (inr (r, d)) = cc
  Maps-unique t q w u valid (inr (s, e)) (inl (j, r, d)) = cc
  Maps-unique t q w u valid (inr (s, e)) (inr (r, d)) =
      Reads-unique (node_at t.node) q w u (HashPart-IsUnique t valid.hash) e d

  -- What `rawget` gives: a slot of the array part, a node with an equal key, or nothing.
  abbrev pub Raw : HashTableObj K V → K → Option (Option Slot) → Type 0
  Raw t q r =
      ((i : ℕ) × (array_slot q (length t.array) ≡ some i) × (r ≡ some (some (in_array i))))
      ⊎ ((array_slot q (length t.array) ≡ none)
          × (((i : ℕ) × (k : K) × ((node_at t.node i).key ≡ some k)
                × (keys.keyeq q k ≡ true)
                × (r ≡ some (some (in_node i))))
              ⊎ (((i : ℕ) (k : K) → (node_at t.node i).key ≡ some k → keys.keyeq q k ≡ false)
                  × (r ≡ some none))))

  pub rawget-Raw : (t : HashTableObj K V) (q : K) → HashPart t → Raw t q (rawget t q)
  unfolding rawget
  rawget-Raw t q part = elim (Option-cases (array_slot q (length t.array))) [
    | inr (i, there) ↦ inl (i, there, rw (rawget, there) refl)
    | inl gone ↦ inr (
      gone,
      elim (HashPart-Finds t q part) [
        | inl (i, k, run, held, same) ↦ inl (i, k, held, same, rw (rawget, gone, run) refl)
        | inr (run, absent) ↦ inr (absent, rw (rawget, gone, run) refl)
      ],
    )
  ]

  -- `get` ends and gives what the key reads.
  pub get-Maps :
      (t : HashTableObj K V) (q : K) → HashPart t → (w : Option V) × (get t q ≡ some w) × Maps t q w
  unfolding get slot_val
  get-Maps t q part = elim (rawget-Raw t q part) [
    | inl (i, there, run) ↦ (get_or t.array i none, rw (get, run) refl, inl (i, there, refl))
    | inr (gone, inl (i, k, held, same, run)) ↦
        ((node_at t.node i).val, rw (get, run) refl, inr (gone, inl (i, k, held, same, refl)))
    | inr (gone, inr (absent, run)) ↦ (none, rw (get, run) refl, inr (gone, inr (absent, refl)))
  ]
