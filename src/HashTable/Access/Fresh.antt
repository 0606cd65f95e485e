-- ===== src/HashTable/Access/Fresh.antt =====
-- A new hash part is valid and has room for every key.
use dummyscheme.Common.{
  none, some, zero, suc, ℕ, length, ◌≡◌, ◌≢◌, refl, ap, inr, ◌^◌, replicate, length-replicate,
  arith, ◌==◌, false,
}
use dummyscheme.HashTable.Nodes.{HashTableObj, TableNode, Keys, node_at, empty_node, mainposition}
use dummyscheme.HashTable.Nodes.Lookup.{IsValid}
use dummyscheme.HashTable.Access.{setnodevector, room_for}
use dummyscheme.HashTable.Access.Slots.{IsTable}
use native.Mathlib.Nat.{one-le-pow}

module _ {K V : Type 0} where
  node_at-replicate : (n i : ℕ) → node_at (replicate n (empty_node {K = K} {V = V})) i ≡ empty_node
  node_at-replicate zero i = refl
  node_at-replicate (suc n) zero = refl
  node_at-replicate (suc n) (suc i) = node_at-replicate n i

module _ {K V : Type 0} ⦃keys : Keys K⦄ (t : HashTableObj K V) (lsize : ℕ) where
  pub setnodevector-bare : (i : ℕ) → node_at (setnodevector t lsize).node i ≡ empty_node
  unfolding setnodevector
  setnodevector-bare i = node_at-replicate (2 ^ lsize) i

  bare_key : (i : ℕ) → (node_at (setnodevector t lsize).node i).key ≡ none
  bare_key i = ap (λ (n : TableNode K V). n.key) (setnodevector-bare i)

  pub setnodevector-IsValid : IsValid (setnodevector t lsize)
  unfolding setnodevector
  setnodevector-IsValid = record {
    size = length-replicate (2 ^ lsize) empty_node;
    places = record {
      placed = λ i k there. let gone = bare_key i in cc;
      bare = λ i gone. ap (λ (n : TableNode K V). n.next) (setnodevector-bare i);
      unique = λ i j a b hi hj e. let gone = bare_key i in cc;
    };
    first = omega (
      arith,
      length-replicate {A = TableNode K V} (2 ^ lsize) empty_node,
      one-le-pow lsize 2 (omega arith),
    );
    filled = λ i above below gone.
        absurd (
          omega (arith, above, below, length-replicate {A = TableNode K V} (2 ^ lsize) empty_node));
  }

  pub setnodevector-IsTable : IsTable (setnodevector t lsize)
  setnodevector-IsTable = record {
    hash = inr setnodevector-IsValid;
    outside = λ i k there. let gone = bare_key i in cc;
  }

  pub setnodevector-room : (k : K) → room_for (setnodevector t lsize) k ≢ none
  unfolding room_for
  setnodevector-room k =
      let some_nodes : (length (setnodevector t lsize).node == 0) ≡ false =
        ground (arith, setnodevector-IsValid.first) in
      let found : room_for (setnodevector t lsize) k ≡ some (setnodevector t lsize) =
        rw (room_for, some_nodes, bare_key (mainposition (setnodevector t lsize).lsizenode k))
          refl in
      λ gone. cc
