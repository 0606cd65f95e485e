-- ===== src/HashTable/Nodes/Count.antt =====
-- How many nodes are in use.
use dummyscheme.Common.{
  none, some, zero, suc, [], ◌∷◌, ℕ, List, length, Option, ◌≡◌, refl, ap, inl, inr, ◌<◌, ◌+◌, arith,
  set, replicate, Option-cases,
}
use dummyscheme.HashTable.Nodes.{TableNode, node_at, empty_node}

abbrev pub one_key : {K : Type 0} → Option K → ℕ
one_key none = 0
one_key (some k) = 1

module _ {K V : Type 0} where
  abbrev pub used : List (TableNode K V) → ℕ
  used [] = 0
  used (n ∷ nodes) = one_key n.key + used nodes

  pub used-set :
      (nodes : List (TableNode K V)) (i : ℕ) (n : TableNode K V)
      → i < length nodes
      → used (set nodes i n) + one_key (node_at nodes i).key ≡ used nodes + one_key n.key
  used-set [] i n h = absurd (omega arith)
  used-set (m ∷ nodes) zero n h = omega arith
  used-set (m ∷ nodes) (suc i) n h = omega (arith, used-set nodes i n (omega arith))

  pub used-Full :
      (nodes : List (TableNode K V))
      → ((j : ℕ) → j < length nodes → (node_at nodes j).key ≡ none → ⊥)
      → used nodes ≡ length nodes
  used-Full [] h = refl
  used-Full (m ∷ nodes) h = elim (Option-cases m.key) [
    | inl gone ↦ absurd (h 0 (omega arith) gone)
    | inr (k, there) ↦
        let rest = used-Full nodes (λ j below bare. h (suc j) (omega arith) bare) in
        omega (arith, rest, ap (λ (o : Option K). one_key o) there)
  ]

pub used-replicate : (K V : Type 0) (n : ℕ) → used (replicate n (empty_node {K = K} {V = V})) ≡ 0
used-replicate K V zero = refl
used-replicate K V (suc n) = omega (arith, used-replicate K V n)
