-- ===== src/HashTable/Nodes/Free.antt =====
-- The free nodes: `getfreepos` finds one when there is one, and `fixfirstfree` keeps the invariant.
use mathlib.Core.Path.{subst}
use dummyscheme.Common.{
  none, some, zero, suc, ℕ, List, length, Option, arith, inl, inr, ◌⊎◌, ◌≡◌, refl, sym, ap, ◌≤◌,
  ◌<◌, Bool-cases, ==→eq, ==-false→ne, ◌==◌, Option-cases, ltb, ltb→lt, ltb-false→le,
}
use dummyscheme.HashTable.Nodes.{
  TableNode, HashTableObj, Keys, node_at, scan_free, getfreepos, fixfirstfree, with_firstfree,
}
use dummyscheme.HashTable.Nodes.Lookup.{IsValid}
use Prim.Native.Nat.{◌<◌}

module _ {K V : Type 0} where
  -- The nodes from one index up to another are in use.
  abbrev pub Full : List (TableNode K V) → ℕ → ℕ → Type 0
  Full nodes low high = (j : ℕ) → low ≤ j → j < high → (node_at nodes j).key ≡ none → ⊥

  abbrev pub Scans : List (TableNode K V) → ℕ → Option ℕ → Type 0
  Scans nodes n r =
      ((r ≡ none) × Full nodes 0 n)
      ⊎ ((i : ℕ) × (r ≡ some i) × (i < n) × ((node_at nodes i).key ≡ none) × Full nodes (suc i) n)

  Full-suc :
      (nodes : List (TableNode K V)) (low n : ℕ) (k : K)
      → (node_at nodes n).key ≡ some k
      → Full nodes low n
      → Full nodes low (suc n)
  Full-suc nodes low n k there h j above below gone = elim (Bool-cases (j == n)) [
    | inl same ↦ let e = ==→eq j n same in let is = ap (λ t. (node_at nodes t).key) (sym e) in cc
    | inr differ ↦ h j above (grind (arith, ==-false→ne j n differ)) gone
  ]

  pub scan_free-Scans : (nodes : List (TableNode K V)) (n : ℕ) → Scans nodes n (scan_free nodes n)
  unfolding scan_free
  scan_free-Scans nodes zero = inl (refl, λ j above below. absurd (omega arith))
  scan_free-Scans nodes (suc n) = elim (Option-cases (node_at nodes n).key) [
    | inl gone ↦
        inr (n, rw (scan_free, gone) refl, omega arith, gone, λ j above below. absurd (omega arith))
    | inr (k, there) ↦ elim (scan_free-Scans nodes n) [
      | inl (run, full) ↦ inl (rw (scan_free, there) run, Full-suc nodes 0 n k there full)
      | inr (i, run, below, gone, full) ↦
          inr
            (i, rw (scan_free, there) run, omega arith, gone, Full-suc nodes (suc i) n k there full)
    ]
  ]

module _ {K V : Type 0} ⦃keys : Keys K⦄ (t : HashTableObj K V) (valid : IsValid t) where
  -- `getfreepos` gives a free node after which none is free, or there is none at all.
  pub getfreepos-Scans :
      ((getfreepos t ≡ none) × Full t.node 0 (length t.node))
      ⊎ ((i : ℕ) × (getfreepos t ≡ some i)
          × (i < length t.node)
          × ((node_at t.node i).key ≡ none)
          × Full t.node (suc i) (length t.node))
  unfolding getfreepos
  getfreepos-Scans = elim (scan_free-Scans t.node (suc t.firstfree)) [
    | inl (run, full) ↦ inl (
      run,
      λ j above below gone. elim (Bool-cases (ltb t.firstfree j)) [
        | inl after ↦ valid.filled j (ltb→lt t.firstfree j after) below gone
        | inr not_after ↦ full j above (omega (arith, ltb-false→le t.firstfree j not_after)) gone
      ],
    )
    | inr (i, run, below, gone, full) ↦ inr (
      i,
      run,
      omega (arith, below, valid.first),
      gone,
      λ j above inside bare. elim (Bool-cases (ltb t.firstfree j)) [
        | inl after ↦ valid.filled j (ltb→lt t.firstfree j after) inside bare
        | inr not_after ↦ full j above (omega (arith, ltb-false→le t.firstfree j not_after)) bare
      ],
    )
  ]

  pub with_firstfree-IsValid :
      (n : ℕ)
      → n < length t.node
      → Full t.node (suc n) (length t.node)
      → IsValid (with_firstfree t n)
  with_firstfree-IsValid n inside full = record {
    size = valid.size;
    places = valid.places;
    first = inside;
    filled = λ i above below gone. full i above below gone;
  }

  -- What `fixfirstfree` does not change.
  abbrev pub SameParts : HashTableObj K V → Type 0
  SameParts u = (u.node ≡ t.node) × (u.lsizenode ≡ t.lsizenode) × (u.array ≡ t.array)

  pub fixfirstfree-IsValid : IsValid (fixfirstfree t) × SameParts (fixfirstfree t)
  unfolding fixfirstfree
  fixfirstfree-IsValid = elim (Option-cases (node_at t.node t.firstfree).key) [
    | inl gone ↦
        subst (λ u. IsValid u × SameParts u) {x = t} (rw (fixfirstfree, gone) refl)
          (valid, (refl, refl, refl))
    | inr (k, there) ↦ elim (scan_free-Scans t.node t.firstfree) [
      | inl (run, full) ↦
          subst (λ u. IsValid u × SameParts u) {x = t} (rw (fixfirstfree, there, run) refl)
            (valid, (refl, refl, refl))
      | inr (n, run, below, gone, full) ↦
          subst (λ u. IsValid u × SameParts u) {x = with_firstfree t n}
            (rw (fixfirstfree, there, run) refl)
            (
              with_firstfree-IsValid n (omega (arith, below, valid.first)) λ j above inside bare.
                  elim (Bool-cases (ltb t.firstfree j)) [
                    | inl after ↦ valid.filled j (ltb→lt t.firstfree j after) inside bare
                    | inr not_after ↦
                        Full-suc t.node (suc n) t.firstfree k there full j above
                          (omega (arith, ltb-false→le t.firstfree j not_after)) bare
                  ],
              (refl, refl, refl),
            )
    ]
  ]
