-- ===== src/HashTable/Access/Reads.antt =====
-- The hash part as a map: what a key reads, and what an insertion or a write changes.
use mathlib.Core.Path.{subst}
use dummyscheme.Common.{
  none, some, [], ℕ, List, Option, inl, inr, ◌⊎◌, ◌≡◌, ◌≢◌, refl, sym, ap, ◌∙◌, Bool, true, false,
  Bool-cases, ==→eq, ==-false→ne, ◌==◌, if◌then◌else◌, some_inj,
}
use dummyscheme.HashTable.Nodes.{TableNode, HashTableObj, Keys, node_at, nodeindex}
use dummyscheme.HashTable.Nodes.Lookup.{IsValid, Finds, nodeindex-Finds}
use dummyscheme.HashTable.Nodes.Insert.{Inserts, Absent}

module _ {K V : Type 0} ⦃keys : Keys K⦄ where
  -- The key reads the value of the node with an equal key, or nothing.
  abbrev pub Reads : (ℕ → TableNode K V) → K → Option V → Type 0
  Reads f q w =
      ((i : ℕ) × (k : K) × ((f i).key ≡ some k) × (keys.keyeq q k ≡ true) × ((f i).val ≡ w))
      ⊎ (Absent f q × (w ≡ none))

  -- No two nodes have equal keys.
  abbrev pub IsUnique : (ℕ → TableNode K V) → Type 0
  IsUnique f =
      (i j : ℕ) (a b : K) → (f i).key ≡ some a → (f j).key ≡ some b → keys.keyeq a b ≡ true → i ≡ j

  pub Reads-unique :
      (f : ℕ → TableNode K V) (q : K) (w u : Option V)
      → IsUnique f
      → Reads f q w
      → Reads f q u
      → w ≡ u
  Reads-unique f q w u unique (inl (i, a, hi, qa, vi)) (inl (j, b, hj, qb, vj)) =
      let ab = keys.keyeq_trans a q b (keys.keyeq_symm q a qa) qb in
      sym vi ∙ ap (λ t. (f t).val) (unique i j a b hi hj ab) ∙ vj
  Reads-unique f q w u unique (inl (i, a, hi, qa, vi)) (inr (absent, e)) =
      let no = absent i a hi in cc
  Reads-unique f q w u unique (inr (absent, e)) (inl (j, b, hj, qb, vj)) =
      let no = absent j b hj in cc
  Reads-unique f q w u unique (inr (absent, e)) (inr (also, d)) = e ∙ sym d

  Reads-rw :
      (g : ℕ → TableNode K V) (q : K) (b c : Bool) (x w : Option V)
      → b ≡ c
      → Reads g q (if c then x else w)
      → Reads g q (if b then x else w)
  Reads-rw g q b c x w e r = subst (λ t. Reads g q (if t then x else w)) (sym e) r

  pub Reads-Inserts :
      (f g : ℕ → TableNode K V) (k : K) (v : V) (q : K) (w : Option V)
      → Inserts k v f g
      → Reads f q w
      → Reads g q (if keys.keyeq q k then some v else w)
  Reads-Inserts f g k v q w ins r = elim (Bool-cases (keys.keyeq q k)) [
    | inl same ↦
        Reads-rw g q (keys.keyeq q k) true (some v) w same
          (inl (ins.new, k, ins.new_key, same, ins.new_val))
    | inr differ ↦ Reads-rw g q (keys.keyeq q k) false (some v) w differ (elim r [
      | inl (i, a, hi, qa, vi) ↦
          let (j, ne, hj, vj) = ins.kept i a hi in inl (j, a, hj, qa, vj ∙ vi)
      | inr (absent, e) ↦ inr (
        λ j b hj. elim (Bool-cases (j == ins.new)) [
          | inl first ↦
              let is_k : some k ≡ some b =
                sym ins.new_key ∙ ap (λ t. (g t).key) (sym (==→eq j ins.new first)) ∙ hj in
              subst (λ t. keys.keyeq q t ≡ false) (some_inj is_k) differ
          | inr other ↦ absent (ins.src j) b (ins.back j b (==-false→ne j ins.new other) hj).0
        ],
        e,
      )
    ])
  ]

  -- A write of the value of one node.
  pub Reads-write :
      (f g : ℕ → TableNode K V) (i : ℕ) (stored k : K) (x : Option V) (q : K) (w : Option V)
      → (f i).key ≡ some stored
      → keys.keyeq k stored ≡ true
      → ((j : ℕ) → (g j).key ≡ (f j).key)
      → (g i).val ≡ x
      → ((j : ℕ) → j ≢ i → (g j).val ≡ (f j).val)
      → Reads f q w
      → Reads g q (if keys.keyeq q k then x else w)
  Reads-write f g i stored k x q w held ks same_keys written others r =
      elim (Bool-cases (keys.keyeq q k)) [
        | inl same ↦
            Reads-rw g q (keys.keyeq q k) true x w same
              (inl (i, stored, same_keys i ∙ held, keys.keyeq_trans q k stored same ks, written))
        | inr differ ↦ Reads-rw g q (keys.keyeq q k) false x w differ (elim r [
          | inl (j, a, hj, qa, vj) ↦
              let away : j ≢ i = λ e.
                let is_stored : some a ≡ some stored = sym hj ∙ ap (λ t. (f t).key) e ∙ held in
                let qs = subst (λ t. keys.keyeq q t ≡ true) (some_inj is_stored) qa in
                let yes = keys.keyeq_trans q stored k qs (keys.keyeq_symm k stored ks) in cc in
              inl (j, a, same_keys j ∙ hj, qa, others j away ∙ vj)
          | inr (absent, e) ↦ inr (λ j b hj. absent j b (sym (same_keys j) ∙ hj), e)
        ])
      ]

  -- The hash part: none yet, or a valid one.
  abbrev pub HashPart : HashTableObj K V → Type 0
  HashPart t = (t.node ≡ []) ⊎ IsValid t

  bare_at : (nodes : List (TableNode K V)) (i : ℕ) → nodes ≡ [] → (node_at nodes i).key ≡ none
  bare_at nodes i e = rw e refl

  pub HashPart-Finds :
      (t : HashTableObj K V) (q : K) → HashPart t → Finds (node_at t.node) q (nodeindex t q)
  unfolding nodeindex
  HashPart-Finds t q (inl empty) =
      inr (rw (nodeindex, empty) refl, λ i k there. let gone = bare_at t.node i empty in cc)
  HashPart-Finds t q (inr valid) = nodeindex-Finds t q valid

  pub HashPart-IsUnique : (t : HashTableObj K V) → HashPart t → IsUnique (node_at t.node)
  HashPart-IsUnique t (inl empty) i j a b hi hj e = let gone = bare_at t.node i empty in cc
  HashPart-IsUnique t (inr valid) i j a b hi hj e = valid.places.unique i j a b hi hj e
