-- ===== src/HashTable.antt =====
-- scmtable.cpp: how `HashTableObj` chooses the sizes of its two parts, an array for the keys 1 to
-- `sizearray` and a hash part of 2 ^ `lsizenode` nodes: `arrayindex`, `log2i`, `numuse`,
-- `computesizes` and `rehash`.
pub mod Sizes
pub mod Nodes
pub mod Access
pub mod Keys
mod Tests
pub mod Counts
pub mod Totals
pub mod Best
use dummyscheme.Common.{
  none, some, zero, suc, [], ◌∷◌, false, ℕ, Bool, List, length, get_or, set, Option, ◌/◌,
  if◌then◌else◌, ◌>>>◌, leb, ltb, ◌-◌, ◌+◌, ◌==◌, min, ◌&&◌, ◌^◌,
}
use dummyscheme.Common.Int.{ℤ, pos, negsuc}
use dummyscheme.Bytevector.{int32}

abbrev pub scmmaxbits : ℕ
scmmaxbits = 24

-- What `arrayindex` and `numuse` tell apart: integer keys and others.
pub data Key : Type 0 where
  integer : ℤ → Key
  other : ℕ → Key

-- The key as an index for the array part; `none` is -1.
unfoldable pub arrayindex : Key → Option ℕ
arrayindex (other x) = none
arrayindex (integer z) = elim (int32 z) [
  | pos zero ↦ none
  | pos (suc k) ↦ if (k >>> scmmaxbits) == 0 then some (suc k) else none
  | negsuc k ↦ none
]

-- One more than `log2i x`, which is -1 for 0: the rounds of `while (x >= 1) { l++; x >>= 1; }`,
-- with fuel.
unfoldable pub log2i : ℕ → ℕ → ℕ
log2i zero x = 0
log2i (suc fuel) x = let rest = log2i fuel (x / 2) in if leb 1 x then suc rest else 0

-- A node, or a slot of the array, in use or not.
pub record Node : Type 0 where
  pub key : Key
  pub live : Bool

-- `nums[lg]` for the keys from one power of two up to the next that are in use in the array part.
unfoldable pub count_slice : List Bool → ℕ → ℕ → ℕ
count_slice array i zero = 0
count_slice array i (suc left) =
    let rest = count_slice array (suc i) left in if get_or array i false then suc rest else rest

-- `i` after `for (; i < ttlg; i++)`.
abbrev pub loop_end : ℕ → ℕ → ℕ
loop_end i ttlg = if ltb i ttlg then ttlg else i

unfoldable pub count_array : List Bool → ℕ → ℕ → ℕ → List ℕ
count_array array i lg zero = []
count_array array i lg (suc left) =
    let ttlg = min (2 ^ lg) (length array) in
    count_slice array i (ttlg - i) ∷ count_array array (loop_end i ttlg) (suc lg) left

-- The nodes in use, added to `nums` when their key fits the array part, with how many fit and how
-- many there are.
unfoldable pub count_nodes : List Node → List ℕ → ℕ → ℕ → List ℕ × ℕ × ℕ
count_nodes [] nums narray total = (nums, narray, total)
count_nodes (n ∷ nodes) nums narray total =
    let plain = count_nodes nodes nums narray (suc total) in
    let skipped = count_nodes nodes nums narray total in
    if n.live
    then elim (arrayindex n.key) [
      | none ↦ plain
      | some k ↦
          let lg = log2i 32 (k - 1) in
          count_nodes nodes (set nums lg (suc (get_or nums lg 0))) (suc narray) (suc total)
    ]
    else skipped

-- The loop of `computesizes` over the counts from `i` on.
unfoldable pub size_loop : List ℕ → ℕ → ℕ → ℕ → Option ℕ → ℕ → ℕ × Option ℕ
size_loop [] i a na n narray = (na, n)
size_loop (c ∷ nums) i a na n narray =
    let better = size_loop nums (suc i) (a + c) (a + c) (some i) narray in
    let worse = size_loop nums (suc i) (a + c) na n narray in
    let same = size_loop nums (suc i) a na n narray in
    if ltb a narray && leb (2 ^ (i - 1)) narray
    then (if ltb 0 c then (if leb (2 ^ (i - 1)) (a + c) then better else worse) else same)
    else (na, n)

-- `(n == -1) ? 0 : twoto(n)`
abbrev pub array_size : Option ℕ → ℕ
array_size none = 0
array_size (some n) = 2 ^ n

-- The size of the array part and the number of keys for the hash part.
unfoldable pub computesizes : List ℕ → ℕ → ℕ → ℕ × ℕ
computesizes [] ntotal narray = (0, ntotal)
computesizes (c ∷ nums) ntotal narray =
    let (na, n) = size_loop nums 1 c c (if c == 0 then none else some 0) narray in
    (array_size n, ntotal - na)

abbrev pub sum : List ℕ → ℕ
sum [] = 0
sum (c ∷ nums) = c + sum nums

unfoldable pub numuse : List Bool → List Node → ℕ × ℕ
numuse array nodes =
    let counts = count_array array 0 0 (scmmaxbits + 1) in
    let (nums, narray, total) = count_nodes nodes counts (sum counts) (sum counts) in
    computesizes nums total narray

-- The size of the array part, and `lsizenode`, that `rehash` resizes the table to.
unfoldable pub rehash_sizes : List Bool → List Node → ℕ × ℕ
rehash_sizes array nodes = let (nasize, nhsize) = numuse array nodes in (nasize, log2i 32 nhsize)
