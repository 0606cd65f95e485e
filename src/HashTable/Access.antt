-- ===== src/HashTable/Access.antt =====
-- scmtable.cpp: `get`, `set`, `remove`, `next` and `rehash` of `HashTableObj`, for a table without
-- a metatable, so that `indexfallback` finds nothing and `newindexfallback` declines.
pub mod Reads
pub mod Slots
pub mod Writes
pub mod Insertion
pub mod Removal
pub mod Laws
pub mod Fresh
pub mod Entries
pub mod Origins
pub mod Rebuild
pub mod Needed
pub mod Total
pub mod Traverse
mod Tests
use dummyscheme.Common.{
  none, some, zero, suc, [], ◌∷◌, ◌>>=◌, true, false, ℕ, Bool, List, length, get_or, set, Option,
  if◌then◌else◌, ltb, ◌-◌, ◌==◌, ◌^◌, replicate, ◌++◌, take, map, drop, reverse,
}
use dummyscheme.Common.Int.{ℤ, pos, negsuc}
use dummyscheme.Bytevector.{int32}
use dummyscheme.HashTable.{integer, other, Node, rehash_sizes}
use dummyscheme.HashTable.Nodes.{
  Keys, TableNode, HashTableObj, empty_node, node_at, nodeindex, insertkey, mainposition,
  getfreepos, with_firstfree,
}

-- A pointer to a value: into the array part or into a node.
pub data Slot : Type 0 where
  in_array : ℕ → Slot
  in_node : ℕ → Slot

-- A slot or a node in use, for the counts of `numuse`.
unfoldable pub live : {V : Type 0} → Option V → Bool
live none = false
live (some v) = true

module _ {K V : Type 0} where
  unfoldable pub slot_val : HashTableObj K V → Slot → Option V
  slot_val t (in_array i) = get_or t.array i none
  slot_val t (in_node i) = (node_at t.node i).val

  abbrev pub write_array : HashTableObj K V → ℕ → Option V → HashTableObj K V
  write_array t i w = record t { array = set t.array i w }

  abbrev pub write_node : HashTableObj K V → ℕ → Option V → HashTableObj K V
  write_node t i w = record t { node = set t.node i (record (node_at t.node i) { val = w }) }

  -- `*slot = *val`
  unfoldable pub write_slot : HashTableObj K V → Slot → Option V → HashTableObj K V
  write_slot t (in_array i) w = write_array t i w
  write_slot t (in_node i) w = write_node t i w

  -- `setarrayvector`: the new slots are undefined.
  unfoldable pub setarrayvector : HashTableObj K V → ℕ → HashTableObj K V
  setarrayvector t size = record t { array = t.array ++ replicate (size - length t.array) none }

  unfoldable pub setnodevector : HashTableObj K V → ℕ → HashTableObj K V
  setnodevector t lsize = record t {
    node = replicate (2 ^ lsize) empty_node;
    firstfree = 2 ^ lsize - 1;
    lsizenode = lsize;
  }

  -- The re-insertion of a slice of the array, whose first index is `i`, and of nodes.
  unfoldable pub put_slice :
      (HashTableObj K V → K → V → Option (HashTableObj K V))
      → (ℤ → K)
      → ℕ
      → List (Option V)
      → HashTableObj K V
      → Option (HashTableObj K V)
  put_slice put setnumi i [] t = some t
  put_slice put setnumi i (none ∷ slice) t = put_slice put setnumi (suc i) slice t
  put_slice put setnumi i (some v ∷ slice) t =
      put t (setnumi (pos (suc i))) v >>= put_slice put setnumi (suc i) slice

  unfoldable pub put_entry :
      (HashTableObj K V → K → V → Option (HashTableObj K V))
      → Option K
      → Option V
      → HashTableObj K V
      → Option (HashTableObj K V)
  put_entry put (some k) (some v) t = put t k v
  put_entry put none v t = some t
  put_entry put (some k) none t = some t

  unfoldable pub put_nodes :
      (HashTableObj K V → K → V → Option (HashTableObj K V))
      → List (TableNode K V)
      → HashTableObj K V
      → Option (HashTableObj K V)
  put_nodes put [] t = some t
  put_nodes put (n ∷ nodes) t = put_nodes put nodes t >>= put_entry put n.key n.val

module _ {K : Type 0} ⦃keys : Keys K⦄ where
  -- The index in an array part of a size: `isnumi(key)` and `1 <= k && k <= sizearray`.
  unfoldable pub array_slot : K → ℕ → Option ℕ
  array_slot k size = elim (keys.numi k) [
    | none ↦ none
    | some z ↦ elim (int32 z) [
      | negsuc n ↦ none
      | pos zero ↦ none
      | pos (suc i) ↦ if ltb i size then some i else none
    ]
  ]

module _ {K V : Type 0} ⦃keys : Keys K⦄ where
  unfoldable pub rawget : HashTableObj K V → K → Option (Option Slot)
  rawget t k = elim (array_slot k (length t.array)) [
    | some i ↦ some (some (in_array i))
    | none ↦
        nodeindex t k >>= λ found. some (elim found [ none ↦ none | some i ↦ some (in_node i) ])
  ]

  -- The value; `none` inside is a null pointer or an undefined value.
  unfoldable pub get : HashTableObj K V → K → Option (Option V)
  get t k = rawget t k >>= λ s. some (elim s [ none ↦ none | some p ↦ slot_val t p ])

  -- The key stays as a tombstone.
  unfoldable pub remove : HashTableObj K V → K → Option (HashTableObj K V × Bool)
  remove t k = rawget t k >>= λ s. some (elim s [
    | none ↦ (t, false)
    | some p ↦ elim (slot_val t p) [ none ↦ (t, false) | some v ↦ (write_slot t p none, true) ]
  ])

  -- `!node || (!isundefined(&mainposition(key)->key) && getfreepos() == NULL)`; `none` is that it
  -- holds, and else the table whose `firstfree` the call of `getfreepos` has moved.
  unfoldable pub room_for : HashTableObj K V → K → Option (HashTableObj K V)
  room_for t k =
      if length t.node == 0 then none else elim (node_at t.node (mainposition t.lsizenode k)).key [
        | none ↦ some t
        | some stored ↦ getfreepos t >>= λ n. some (with_firstfree t n)
      ]

  unfoldable pub counted : TableNode K V → Node
  counted n = record {
    key = elim n.key [
      | none ↦ other 0
      | some k ↦ elim (keys.numi k) [ none ↦ other 0 | some z ↦ integer z ]
    ];
    live = elim n.key [ none ↦ false | some k ↦ live n.val ];
  }

  -- The new array part, the new hash part, and the elements of a vanishing slice and of the old
  -- nodes put in again, from the last node to the first.
  unfoldable pub resize :
      (HashTableObj K V → K → V → Option (HashTableObj K V))
      → HashTableObj K V
      → ℕ
      → ℕ
      → Option (HashTableObj K V)
  resize put t nasize nhsize =
      let grown = if ltb (length t.array) nasize then setarrayvector t nasize else t in
      let fresh = setnodevector grown nhsize in
      let cut = record fresh { array = take nasize fresh.array } in
      let slice = drop nasize t.array in
      let shrunk = put_slice put keys.setnumi nasize slice cut >>= λ u.
      some (record u { array = take nasize u.array }) in
      (if ltb nasize (length t.array) then shrunk else some fresh) >>= put_nodes put t.node

  unfoldable pub rehash :
      (HashTableObj K V → K → V → Option (HashTableObj K V))
      → HashTableObj K V
      → Option (HashTableObj K V)
  rehash put t =
      let (nasize, nhsize) = rehash_sizes (map live t.array) (map counted t.node) in
      resize put t nasize nhsize

  -- The new key goes into the table, or the rehash comes first.
  unfoldable pub insert_or :
      Option (HashTableObj K V) → Option (HashTableObj K V) → K → V → Option (HashTableObj K V)
  insert_or none again k v = again
  insert_or (some u) again k v = insertkey u k v

  -- The fuel bounds how often a rehash is needed inside another; `none` is that it runs out.
  unfoldable pub set_key : ℕ → HashTableObj K V → K → V → Option (HashTableObj K V)
  set_key zero t k v = none
  set_key (suc fuel) t k v =
      let again = rehash (set_key fuel) t >>= λ u. set_key fuel u k v in
      elim (array_slot k (length t.array)) [
        | some i ↦ some (write_array t i (some v))
        | none ↦ rawget t k >>= λ s. elim s [
          | some p ↦ some (write_slot t p (some v))
          | none ↦ insert_or (room_for t k) again k v
        ]
      ]
