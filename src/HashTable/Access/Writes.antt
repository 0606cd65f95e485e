-- ===== src/HashTable/Access/Writes.antt =====
-- A write to a slot changes what a table gives for one key.
use mathlib.Core.Path.{subst}
use dummyscheme.Common.{
  none, some, [], ◌∷◌, ℕ, List, length, Option, arith, inl, inr, ◌≡◌, ◌≢◌, refl, sym, ap, ◌∙◌, Bool,
  true, false, Bool-cases, ==→eq, ==-false→ne, ◌==◌, if◌then◌else◌, get_or-set_self, get_or-set_ne,
  length-set, set, ◌≤◌, ◌+◌,
}
use dummyscheme.HashTable.Nodes.{TableNode, HashTableObj, Keys, node_at, mainposition, empty_node}
use dummyscheme.HashTable.Nodes.Count.{used, used-set}
use dummyscheme.HashTable.Nodes.Chains.{Leads}
use dummyscheme.HashTable.Nodes.Lookup.{Placed, node_at-bound}
use dummyscheme.HashTable.Nodes.Insert.{key_eq, val_eq, next_eq}
use dummyscheme.HashTable.Access.{array_slot, write_array, write_node}
use dummyscheme.HashTable.Access.Reads.{HashPart, Reads-write}
use dummyscheme.HashTable.Access.Slots.{
  IsTable, Maps, array_slot_congr, array_slot-keyeq, array_slot-numi,
}

-- One for a key without a slot of the array part.
abbrev pub needs_node : Option ℕ → ℕ
needs_node none = 1
needs_node (some i) = 0

-- The places of keys depend on the keys and the pointers only.
module _ {K V : Type 0} (home : K → ℕ) (f g : ℕ → TableNode K V)
    (same_key : (j : ℕ) → (g j).key ≡ (f j).key)
    (same_next : (j : ℕ) → (g j).next ≡ (f j).next) where
  Leads-same :
      (h : ℕ) (v : Option ℕ) (l : List ℕ) → Leads home f h v l none → Leads home g h v l none
  Leads-same h v [] c = c
  Leads-same h v (i ∷ l) (e, (k, there, at), c) = (
    e,
    (k, same_key i ∙ there, at),
    subst (λ p. Leads home g h p l none) (sym (same_next i)) (Leads-same h (f i).next l c),
  )

  Placed-same : (keyeq : K → K → Bool) → Placed keyeq home f → Placed keyeq home g
  Placed-same keyeq p = record {
    placed = λ i k held.
        let (l, c, m) = p.placed i k (sym (same_key i) ∙ held) in
        (l, Leads-same (home k) (some (home k)) l c, m);
    bare = λ i gone. same_next i ∙ p.bare i (sym (same_key i) ∙ gone);
    unique = λ i j a b hi hj e. p.unique i j a b (sym (same_key i) ∙ hi) (sym (same_key j) ∙ hj) e;
  }

module _ {K V : Type 0} ⦃keys : Keys K⦄ where
  -- Afterwards the keys equal to `k` read `x`, and the others what they did.
  pub record Writes (t : HashTableObj K V) (k : K) (x : Option V) (after : HashTableObj K V)
      : Type 0 where
    pub table : IsTable after
    pub size : length after.array ≡ length t.array
    pub nodes : length after.node ≡ length t.node
    pub count : used after.node ≤ used t.node + needs_node (array_slot k (length t.array))
    pub maps : (q : K) (w : Option V) → Maps t q w → Maps after q (if keys.keyeq q k then x else w)

  pub if_rw :
      (t : HashTableObj K V) (q : K) (b c : Bool) (x w : Option V)
      → b ≡ c
      → Maps t q (if c then x else w)
      → Maps t q (if b then x else w)
  if_rw t q b c x w e m = subst (λ u. Maps t q (if u then x else w)) (sym e) m

  module _ (t : HashTableObj K V) (valid : IsTable t) (k : K) where
    pub write_array-Writes :
        (i : ℕ) (x : Option V)
        → array_slot k (length t.array) ≡ some i
        → Writes t k x (write_array t i x)
    write_array-Writes i x there =
        let len = length-set t.array i x in
        let after = write_array t i x in
        let inside = (array_slot-numi k (length t.array) i there).1 in
        record {
          table = record {
            hash = keep_hash after valid.hash;
            outside =
                λ j o held. subst (λ n. array_slot o n ≡ none) (sym len) (valid.outside j o held);
          };
          size = len;
          nodes = refl;
          count = omega arith;
          maps = λ q w m. elim (Bool-cases (keys.keyeq q k)) [
            | inl same ↦ if_rw after q (keys.keyeq q k) true x w same (
                inl (
                  i,
                  subst (λ n. array_slot q n ≡ some i) (sym len)
                      (array_slot_congr q k (length t.array) same ∙ there),
                  get_or-set_self t.array i x none inside,
                ))
            | inr differ ↦ if_rw after q (keys.keyeq q k) false x w differ (elim m [
              | inl (j, s, e) ↦
                  let away : i ≢ j = λ d.
                    let yes =
                      array_slot-keyeq q k (length t.array) j s
                        (there ∙ ap (λ (n : ℕ). some n) d) in
                    cc in
                  inl (
                    j,
                    subst (λ n. array_slot q n ≡ some j) (sym len) s,
                    get_or-set_ne t.array i j x none away ∙ e,
                  )
              | inr (s, r) ↦ inr (subst (λ n. array_slot q n ≡ none) (sym len) s, r)
            ])
          ];
        }
      where
        keep_hash : (u : HashTableObj K V) → HashPart t → HashPart (write_array t i x)
        keep_hash u (inl empty) = inl empty
        keep_hash u (inr ok) =
            inr
              (record { size = ok.size; places = ok.places; first = ok.first; filled = ok.filled })

    pub write_node-Writes :
        (i : ℕ) (stored : K) (x : Option V)
        → array_slot k (length t.array) ≡ none
        → (node_at t.node i).key ≡ some stored
        → keys.keyeq k stored ≡ true
        → Writes t k x (write_node t i x)
    write_node-Writes i stored x gone held same =
        let f = node_at t.node in
        let entry : TableNode K V = record (f i) { val = x } in
        let nodes = set t.node i entry in
        let g = node_at nodes in
        let after = write_node t i x in
        let len = length-set t.node i entry in
        let at_i : g i ≡ entry =
          get_or-set_self t.node i entry empty_node (node_at-bound t.node i stored held) in
        let others : (j : ℕ) → j ≢ i → g j ≡ f j =
          λ j ne. get_or-set_ne t.node i j entry empty_node (λ e. ne (sym e)) in
        let same_key : (j : ℕ) → (g j).key ≡ (f j).key = λ j. elim (Bool-cases (j == i)) [
          | inl is ↦
              let e = ==→eq j i is in subst (λ n. (g n).key ≡ (f n).key) (sym e) (key_eq at_i)
          | inr differ ↦ key_eq (others j (==-false→ne j i differ))
        ] in
        let same_next : (j : ℕ) → (g j).next ≡ (f j).next = λ j. elim (Bool-cases (j == i)) [
          | inl is ↦
              let e = ==→eq j i is in subst (λ n. (g n).next ≡ (f n).next) (sym e) (next_eq at_i)
          | inr differ ↦ next_eq (others j (==-false→ne j i differ))
        ] in
        record {
          table = record {
            hash = elim valid.hash [
              | inl empty ↦ inl (rw empty refl)
              | inr ok ↦ inr (record {
                size = len ∙ ok.size;
                places =
                    Placed-same (mainposition t.lsizenode) f g same_key same_next keys.keyeq
                      ok.places;
                first = omega (arith, ok.first, len);
                filled = λ j above below bare.
                    ok.filled j above (omega (arith, below, len)) (sym (same_key j) ∙ bare);
              })
            ];
            outside = λ j o there. valid.outside j o (sym (same_key j) ∙ there);
          };
          size = refl;
          nodes = len;
          count = omega (arith, used-set t.node i entry (node_at-bound t.node i stored held));
          maps = λ q w m. elim m [
            | inl (j, s, e) ↦
                let differ : keys.keyeq q k ≡ false = not_equal q j s in
                if_rw after q (keys.keyeq q k) false x w differ (inl (j, s, e))
            | inr (s, r) ↦ inr (
              s,
              Reads-write f g i stored k x q w held same same_key (val_eq at_i)
                  (λ j ne. val_eq (others j ne)) r,
            )
          ];
        }
      where
        not_equal :
            (q : K) (j : ℕ) → array_slot q (length t.array) ≡ some j → keys.keyeq q k ≡ false
        not_equal q j s = elim (Bool-cases (keys.keyeq q k)) [
          | inl equal ↦ let e = array_slot_congr q k (length t.array) equal in cc
          | inr differ ↦ differ
        ]
