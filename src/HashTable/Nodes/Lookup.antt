-- ===== src/HashTable/Nodes/Lookup.antt =====
-- Where keys stand in the hash part, and that `nodeindex` finds them.
use dummyscheme.Common.Bits.{bit_and_mask}
use dummyscheme.Common.{
  none, some, zero, suc, [], ◌∷◌, ℕ, List, length, Option, arith, inl, inr, ◌⊎◌, ◌≡◌, refl, sym, ap,
  ◌∙◌, ◌≤◌, ◌<◌, Bool, true, false, ◌^◌, Bool-cases, ◌==◌, Option-cases, some_inj,
}
use mathlib.Core.Path.{subst}
use dummyscheme.HashTable.Nodes.{
  TableNode, HashTableObj, Keys, node_at, find_loop, nodeindex, mainposition, spread,
}
use dummyscheme.HashTable.Nodes.Chains.{
  In, Leads, Leads-unique, Leads-suffix, Leads-Once, Leads-Used, length-Once, Leads-start,
}
use native.Mathlib.Nat.{one-le-pow, mod-lt}

-- Each key stands in the chain of its main position, which ends, and only once in the table.
pub record Placed {K V : Type 0} (keyeq : K → K → Bool) (home : K → ℕ) (f : ℕ → TableNode K V)
    : Type 0 where
  pub placed :
      (i : ℕ) (k : K)
      → (f i).key ≡ some k
      → (l : List ℕ) × Leads home f (home k) (some (home k)) l none × In i l
  pub bare : (i : ℕ) → (f i).key ≡ none → (f i).next ≡ none
  pub unique :
      (i j : ℕ) (a b : K) → (f i).key ≡ some a → (f j).key ≡ some b → keyeq a b ≡ true → i ≡ j

-- The invariant of the hash part: the sizes, the places of the keys, and that every node after
-- `firstfree` is in use.
pub record IsValid {K V : Type 0} ⦃keys : Keys K⦄ (t : HashTableObj K V) : Type 0 where
  pub size : length t.node ≡ 2 ^ t.lsizenode
  pub places : Placed keys.keyeq (mainposition t.lsizenode) (node_at t.node)
  pub first : t.firstfree < length t.node
  pub filled : (i : ℕ) → t.firstfree < i → i < length t.node → (node_at t.node i).key ≡ none → ⊥

pub node_at-bound :
    {K V : Type 0} (nodes : List (TableNode K V)) (i : ℕ) (k : K)
    → (node_at nodes i).key ≡ some k
    → i < length nodes
node_at-bound [] i k h = cc
node_at-bound (n ∷ nodes) zero k h = omega arith
node_at-bound (n ∷ nodes) (suc i) k h = omega (arith, node_at-bound nodes i k h)

module _ {K : Type 0} ⦃keys : Keys K⦄ where
  pub mainposition-lt : (lsize : ℕ) (k : K) → mainposition lsize k < 2 ^ lsize
  unfolding mainposition
  mainposition-lt lsize k = omega (
    arith,
    bit_and_mask lsize (spread (keys.gethash k)),
    one-le-pow lsize 2 (omega arith),
    mod-lt (spread (keys.gethash k)) {m = 2 ^ lsize} (one-le-pow lsize 2 (omega arith)),
  )

  pub keyeq-mainposition :
      (lsize : ℕ) (a b : K) → keys.keyeq a b ≡ true → mainposition lsize a ≡ mainposition lsize b
  unfolding mainposition
  keyeq-mainposition lsize a b e = rw (keys.keyeq-gethash a b e) refl

module _ {K V : Type 0} ⦃keys : Keys K⦄ where
  -- The node with a key, or that there is none.
  abbrev pub Finds : (ℕ → TableNode K V) → K → Option (Option ℕ) → Type 0
  Finds f q r =
      ((i : ℕ) × (k : K) × (r ≡ some (some i)) × ((f i).key ≡ some k) × (keys.keyeq q k ≡ true))
      ⊎ ((r ≡ some none) × ((i : ℕ) → (k : K) → (f i).key ≡ some k → keys.keyeq q k ≡ false))

  module _ (nodes : List (TableNode K V)) (q : K) where
    FindsIn : List ℕ → Option (Option ℕ) → Type 0
    FindsIn l r =
        ((i : ℕ) × (k : K) × (r ≡ some (some i))
          × ((node_at nodes i).key ≡ some k)
          × (keys.keyeq q k ≡ true))
        ⊎ ((r ≡ some none)
            × ((i : ℕ)
                → (k : K) → In i l
                → (node_at nodes i).key ≡ some k
                → keys.keyeq q k ≡ false))

    find_loop_lem :
        (home : K → ℕ) (h fuel : ℕ) (v : Option ℕ) (l : List ℕ)
        → length l ≤ fuel
        → Leads home (node_at nodes) h v l none
        → FindsIn l (find_loop fuel nodes q v)
    unfolding find_loop FindsIn
    find_loop_lem home h fuel v [] enough c = inr (rw c refl, λ i k m. absurd m)
    find_loop_lem home h zero v (i ∷ l) enough c = absurd (omega arith)
    find_loop_lem home h (suc fuel) v (i ∷ l) enough (e, (k, there, at), c) =
        elim (Bool-cases (keys.keyeq q k)) [
          | inl same ↦ inl (i, k, rw (e, find_loop, there, same) refl, there, same)
          | inr differ ↦
              elim (find_loop_lem home h fuel (node_at nodes i).next l (omega (arith, enough)) c) [
                | inl (j, found, run, here, eq) ↦
                    inl (j, found, rw (e, find_loop, there, differ) run, here, eq)
                | inr (run, others) ↦ inr (
                  rw (e, find_loop, there, differ) run,
                  λ j p m is. elim m [
                    | inl first ↦
                        let same : k ≡ p =
                          some_inj (sym there ∙ ap (λ t. (node_at nodes t).key) (sym first) ∙ is) in
                        subst (λ t. keys.keyeq q t ≡ false) same differ
                    | inr later ↦ others j p later is
                  ],
                )
              ]
        ]

    find_loop_bare :
        (fuel h : ℕ)
        → 1 ≤ fuel
        → (node_at nodes h).key ≡ none
        → find_loop fuel nodes q (some h) ≡ some none
    unfolding find_loop
    find_loop_bare zero h more bare = absurd (omega arith)
    find_loop_bare (suc fuel) h more bare = rw (find_loop, bare) refl

  -- A main position that is not in use has no keys.
  home-used :
      (home : K → ℕ) (f : ℕ → TableNode K V) (i : ℕ) (k : K)
      → Placed keys.keyeq home f
      → (f i).key ≡ some k
      → (f (home k)).key ≡ none
      → ⊥
  home-used home f i k p there bare =
      let (l, c, m) = p.placed i k there in
      let (o, used, at) = Leads-start home f (home k) (home k) l c in cc

  -- For a valid hash part, `nodeindex` ends within as many rounds as there are nodes, and gives a
  -- node with a key equal to the given one, or finds that there is none.
  pub nodeindex-Finds :
      (t : HashTableObj K V) (q : K) → IsValid t → Finds (node_at t.node) q (nodeindex t q)
  unfolding nodeindex FindsIn
  nodeindex-Finds t q valid =
      let home = mainposition t.lsizenode in
      let h = home q in
      let f = node_at t.node in
      let inside : h < length t.node = omega (arith, mainposition-lt t.lsizenode q, valid.size) in
      let some_nodes : (length t.node == 0) ≡ false = ground (arith, inside) in
      elim (Option-cases (f h).key) [
        | inl bare ↦ inr (
          rw some_nodes (find_loop_bare t.node q (length t.node) h (omega (arith, inside)) bare),
          λ i k there. elim (Bool-cases (keys.keyeq q k)) [
            | inl same ↦ absurd (
                home-used home f i k valid.places there
                  (subst (λ p. (f p).key ≡ none) (keyeq-mainposition t.lsizenode q k same) bare))
            | inr differ ↦ differ
          ],
        )
        | inr (stored, there) ↦
            let (l, c, m) = valid.places.placed h stored there in
            let (a, b, cut, d) = Leads-suffix home f (home stored) _ l h none m c in
            let few : length (h ∷ b) ≤ length t.node =
              length-Once (length t.node) (h ∷ b)
                (Leads-Once home f (home stored) (some h) (h ∷ b) d)
                λ i among.
                  let (k, used, at) =
                    Leads-Used home f (home stored) (some h) (h ∷ b) i none among d in
                  node_at-bound t.node i k used in
            elim (find_loop_lem t.node q home (home stored) (length t.node) (some h) (h ∷ b) few
              d) [
                | inl (i, k, run, here, same) ↦ inl (i, k, rw some_nodes run, here, same)
                | inr (run, others) ↦ inr (
                  rw some_nodes run,
                  λ i k here. elim (Bool-cases (keys.keyeq q k)) [
                    | inl same ↦
                        let at = keyeq-mainposition t.lsizenode q k same in
                        let (whole, chain, among) = valid.places.placed i k here in
                        let whole_b : whole ≡ h ∷ b =
                          Leads-unique home f (home k) (home stored) (some h) whole (h ∷ b)
                            (subst (λ p. Leads home f (home k) (some p) whole none) (sym at) chain)
                            d in
                        others i k (subst (λ w. In i w) whole_b among) here
                    | inr differ ↦ differ
                  ],
                )
              ]
      ]
