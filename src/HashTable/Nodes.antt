-- ===== src/HashTable/Nodes.antt =====
-- scmtable.cpp: the two parts of `HashTableObj` and their operations, for a table without a
-- metatable. `TableNode* node` is an index into the list of nodes, and `[]` is a null `node`. An
-- undefined key or value is `none`. What the code asks of keys is an interface.
pub mod Chains
pub mod Lookup
pub mod Insert
pub mod Free
pub mod Count
pub mod Insertkey
use dummyscheme.Common.{
  ◌<◌, none, some, zero, suc, ◌>>=◌, true, ℕ, Bool, List, length, get_or, set, Option, ◌/◌, ◌%◌,
  ◌*◌, if◌then◌else◌, ◌-◌, ◌==◌, ◌^◌, bit_xor, bit_and, ◌≡◌,
}
use dummyscheme.Bytevector.{int32}
use dummyscheme.Common.Int.{ℤ, pos}

-- `gethash`, `keyeq`, `isnumi` with `numi`, and `setnumi`, with what the table relies on: `keyeq`
-- is an equivalence that the hash and `numi` respect, and an integer key fits an `int`. Not all
-- values are such keys: the table cuts greater fixnums to 32 bits (`numi-fits` leaves them out),
-- and HashTable/Keys says which ones are.
pub record Keys (K : Type 0) : Type 0 where
  pub gethash : K → ℕ
  pub keyeq : K → K → Bool
  pub numi : K → Option ℤ
  pub setnumi : ℤ → K
  pub keyeq_refl : (a : K) → keyeq a a ≡ true
  pub keyeq_symm : (a b : K) → keyeq a b ≡ true → keyeq b a ≡ true
  pub keyeq_trans : (a b c : K) → keyeq a b ≡ true → keyeq b c ≡ true → keyeq a c ≡ true
  pub keyeq-gethash : (a b : K) → keyeq a b ≡ true → gethash a ≡ gethash b
  pub keyeq-numi : (a b : K) → keyeq a b ≡ true → numi a ≡ numi b
  pub numi-fits : (a : K) (z : ℤ) → numi a ≡ some z → int32 z ≡ z
  pub numi-setnumi : (n : ℕ) → n < 2 ^ 31 → numi (setnumi (pos n)) ≡ some (pos n)
  pub keyeq-setnumi : (a : K) (z : ℤ) → numi a ≡ some z → keyeq a (setnumi z) ≡ true

pub record TableNode (K V : Type 0) : Type 0 where
  pub key : Option K
  pub val : Option V
  pub next : Option ℕ

pub record HashTableObj (K V : Type 0) : Type 0 where
  pub array : List (Option V)
  pub lsizenode : ℕ
  pub node : List (TableNode K V)
  pub firstfree : ℕ

-- The multiplications of `mainposition` are of 32 bits.
unfoldable pub spread : ℕ → ℕ
spread hash =
    let h = hash % 2 ^ 32 in
    let h = bit_xor h (h / 2 ^ 16) in
    let h = h * 2146121005 % 2 ^ 32 in
    let h = bit_xor h (h / 2 ^ 15) in let h = h * 2221713035 % 2 ^ 32 in bit_xor h (h / 2 ^ 16)

module _ {K V : Type 0} where
  -- What `initnodes` leaves in a node.
  abbrev pub empty_node : TableNode K V
  empty_node = record { key = none; val = none; next = none }

  -- The node at an index; no index is out of range.
  abbrev pub node_at : List (TableNode K V) → ℕ → TableNode K V
  node_at nodes i = get_or nodes i empty_node

  -- The scan down from `n - 1`, of `getfreepos` and `fixfirstfree`.
  unfoldable pub scan_free : List (TableNode K V) → ℕ → Option ℕ
  scan_free nodes zero = none
  scan_free nodes (suc i) =
      let rest = scan_free nodes i in elim (node_at nodes i).key [ none ↦ some i | some k ↦ rest ]

  unfoldable pub getfreepos : HashTableObj K V → Option ℕ
  getfreepos t = scan_free t.node (suc t.firstfree)

  -- `firstfree = n`
  abbrev pub with_firstfree : HashTableObj K V → ℕ → HashTableObj K V
  with_firstfree t n = record t { firstfree = n }

  unfoldable pub fixfirstfree : HashTableObj K V → HashTableObj K V
  fixfirstfree t = elim (node_at t.node t.firstfree).key [
    | none ↦ t
    | some k ↦ elim (scan_free t.node t.firstfree) [ none ↦ t | some n ↦ with_firstfree t n ]
  ]

  -- `while (othern->next != mp) othern = othern->next`; a null pointer, or that the fuel runs out,
  -- is `none`.
  unfoldable pub before_loop : ℕ → List (TableNode K V) → ℕ → ℕ → Option ℕ
  before_loop zero nodes othern mp = none
  before_loop (suc fuel) nodes othern mp = elim (node_at nodes othern).next [
    | none ↦ none
    | some n ↦ let rest = before_loop fuel nodes n mp in if n == mp then some othern else rest
  ]

  -- `node[i].next = n`
  abbrev pub set_next : List (TableNode K V) → ℕ → Option ℕ → List (TableNode K V)
  set_next nodes i n = set nodes i (record (node_at nodes i) { next = n })

  -- `mp->key = *key; mp->val = *val`
  abbrev pub set_entry : List (TableNode K V) → ℕ → K → V → List (TableNode K V)
  set_entry nodes i k v = set nodes i (record (node_at nodes i) { key = some k; val = some v })

unfoldable pub mainposition : {K : Type 0} ⦃keys : Keys K⦄ → ℕ → K → ℕ
mainposition ⦃keys⦄ lsizenode k = bit_and (spread (keys.gethash k)) (2 ^ lsizenode - 1)

module _ {K V : Type 0} ⦃keys : Keys K⦄ where
  -- The loop of `rawget` and `nodeindex`, from a pointer on; `none` is that the fuel runs out.
  unfoldable pub find_loop : ℕ → List (TableNode K V) → K → Option ℕ → Option (Option ℕ)
  find_loop fuel nodes k none = some none
  find_loop zero nodes k (some i) = none
  find_loop (suc fuel) nodes k (some i) =
      let rest = find_loop fuel nodes k (node_at nodes i).next in
      elim (node_at nodes i).key [
        | none ↦ some none
        | some stored ↦ if keys.keyeq k stored then some (some i) else rest
      ]

  -- As many rounds as there are nodes.
  unfoldable pub nodeindex : HashTableObj K V → K → Option (Option ℕ)
  nodeindex t k =
      if length t.node == 0
      then some none
      else find_loop (length t.node) t.node k (some (mainposition t.lsizenode k))

  -- A new node behind the head of the chain.
  unfoldable pub chain_key : HashTableObj K V → ℕ → ℕ → K → V → HashTableObj K V
  chain_key t mp freen k v =
      let linked = set_next t.node freen (node_at t.node mp).next in
      let hooked = set_next linked mp (some freen) in
      fixfirstfree (record t { node = set_entry hooked freen k v; firstfree = freen })

  -- The node at `mp`, of another chain, moves to the free one, `p` before it.
  unfoldable pub move_node : HashTableObj K V → ℕ → ℕ → ℕ → K → V → HashTableObj K V
  move_node t p mp freen k v =
      let hooked = set_next t.node p (some freen) in
      let moved = set hooked freen (node_at hooked mp) in
      let cleared = set moved mp empty_node in
      fixfirstfree (record t { node = set_entry cleared mp k v; firstfree = freen })

  unfoldable pub insertkey : HashTableObj K V → K → V → Option (HashTableObj K V)
  insertkey t k v =
      let mp = mainposition t.lsizenode k in
      elim (node_at t.node mp).key [
        | none ↦ some (fixfirstfree (record t { node = set_entry t.node mp k v }))
        | some stored ↦
            let othern = mainposition t.lsizenode stored in
            let before = before_loop (length t.node) t.node othern mp in
            getfreepos t >>= λ freen.
            if othern == mp
            then some (chain_key t mp freen k v)
            else before >>= λ p. some (move_node t p mp freen k v)
      ]
