-- ===== src/HashTable/Counts.antt =====
-- What `numuse` counts, and the sizes that come of it.
use mathlib.Core.Path.{subst}
use mathlib.Core.Option.{none-ne-some, some-injective}
use dummyscheme.Common.{
  none, some, zero, suc, [], ◌∷◌, false, ℕ, Bool, List, length, get_or, set, refl, inl, inr, ◌<◌,
  ◌≡◌, ◌+◌, ◌^◌, ◌-◌, arith, Bool-cases, ◌≤◌, if◌then◌else◌, Option-cases, leb, ◌>>>◌, length-set,
  ◌*◌, ◌/◌, ◌==◌, ◌∙◌, if_split, ap, min,
}
use dummyscheme.Common.Int.{ℤ, pos, negsuc}
use dummyscheme.HashTable.{
  log2i, arrayindex, Key, integer, other, Node, count_array, count_nodes, numuse, rehash_sizes, sum,
  scmmaxbits, loop_end, computesizes,
}
use dummyscheme.HashTable.Sizes.{computesizes-best, held_by, IsHalfFull, log2i-bound}
use dummyscheme.Common.Powers.{two-pow-suc}
use dummyscheme.Bytevector.{int32}

pub log2i-le : (fuel x bits : ℕ) → x < 2 ^ bits → log2i fuel x ≤ bits
unfolding log2i
log2i-le zero x bits h = omega arith
log2i-le (suc fuel) x zero h =
    let nothing : leb 1 x ≡ false = ground (arith, h) in rw nothing (omega arith)
log2i-le (suc fuel) x (suc bits) h = elim (Bool-cases (leb 1 x)) [
  | inl more ↦
      rw more (omega (arith, log2i-le fuel (x / 2) bits (omega (arith, h, two-pow-suc bits))))
  | inr nothing ↦ rw nothing (omega arith)
]

-- An index for the array part is at most the largest size of it.
pub arrayindex-bound : (key : Key) (k : ℕ) → arrayindex key ≡ some k → k - 1 < 2 ^ scmmaxbits
unfolding arrayindex
arrayindex-bound (other x) k h = absurd (none-ne-some k h)
arrayindex-bound (integer z) k h = in_range (int32 z) k h
  where
    in_range :
        (v : ℤ) (k : ℕ)
        → (elim v [
          | pos zero ↦ none
          | pos (suc k) ↦ if (k >>> scmmaxbits) == 0 then some (suc k) else none
          | negsuc k ↦ none
        ])
          ≡ some k
        → k - 1 < 2 ^ scmmaxbits
    in_range (pos zero) k h = absurd (none-ne-some k h)
    in_range (negsuc n) k h = absurd (none-ne-some k h)
    in_range (pos (suc n)) k h =
        elim (if_split (λ r. r ≡ some k) ((n >>> scmmaxbits) == 0) (some (suc n)) none h) [
          | inl (small, e) ↦ ground (arith, small, some-injective (suc n) k e)
          | inr (big, e) ↦ absurd (none-ne-some k e)
        ]

sum-set :
    (nums : List ℕ) (i : ℕ)
    → i < length nums
    → sum (set nums i (suc (get_or nums i 0))) ≡ suc (sum nums)
sum-set [] i h = absurd (omega arith)
sum-set (c ∷ nums) zero h = omega arith
sum-set (c ∷ nums) (suc i) h = omega (arith, sum-set nums i (omega arith))

pub length-count_array :
    (array : List Bool) (i lg left : ℕ) → length (count_array array i lg left) ≡ left
unfolding count_array
length-count_array array i lg zero = refl
length-count_array array i lg (suc left) =
    ap suc (length-count_array array (loop_end i (min (2 ^ lg) (length array))) (suc lg) left)

-- `narray` is the sum of the counts.
count_nodes-sum :
    (nodes : List Node) (nums : List ℕ) (narray total : ℕ)
    → length nums ≡ scmmaxbits + 1
    → sum nums ≡ narray
    → sum (count_nodes nodes nums narray total).0 ≡ (count_nodes nodes nums narray total).1
unfolding count_nodes
count_nodes-sum [] nums narray total size whole = whole
count_nodes-sum (n ∷ nodes) nums narray total size whole = elim (Bool-cases n.live) [
  | inl live ↦ elim (Option-cases (arrayindex n.key)) [
    | inl none_fit ↦ rw (live, none_fit) (count_nodes-sum nodes nums narray (suc total) size whole)
    | inr (k, fits) ↦
        let lg = log2i 32 (k - 1) in
        let inside = log2i-le 32 (k - 1) scmmaxbits (arrayindex-bound n.key k fits) in
        rw (live, fits)
          (count_nodes-sum nodes (set nums lg (suc (get_or nums lg 0))) (suc narray) (suc total)
            (length-set nums lg (suc (get_or nums lg 0)) ∙ size)
            (sum-set nums lg (omega (arith, inside, size)) ∙ ap suc whole))
  ]
  | inr dead ↦ rw dead (count_nodes-sum nodes nums narray total size whole)
]

abbrev pub counts : List Bool → List Node → List ℕ × ℕ × ℕ
counts array nodes =
    let slices = count_array array 0 0 (scmmaxbits + 1) in
    count_nodes nodes slices (sum slices) (sum slices)

-- The best sizes for the counts `nums` of `narray` keys out of `ntotal`.
abbrev pub IsBest : List ℕ → ℕ → ℕ × ℕ → Type 0
IsBest nums ntotal sizes =
    (na : ℕ) × (sizes.1 ≡ ntotal - na)
    × ((i : ℕ) → 2 ^ i ≤ 2 * held_by nums i → held_by nums i ≤ na)
    × IsHalfFull nums sizes.0 na

-- The sizes that `numuse` chooses for any array part and nodes are the best ones for its counts
-- of integer keys between powers of two: no array part of a power of two that its keys fill by
-- half holds more keys, the array part chosen has no key or is itself filled by half, and the
-- hash part is for the other keys.
pub numuse-IsBest :
    (array : List Bool) (nodes : List Node)
    → IsBest (counts array nodes).0 (counts array nodes).2 (numuse array nodes)
unfolding numuse
numuse-IsBest array nodes =
    let (nums, narray, total) = counts array nodes in
    let slices = count_array array 0 0 (scmmaxbits + 1) in
    subst (λ m. IsBest nums total (computesizes nums total m))
      (count_nodes-sum nodes slices (sum slices) (sum slices)
        (length-count_array array 0 0 (scmmaxbits + 1)) refl)
      (computesizes-best nums total)

-- For fewer than 2 ^ 32 keys for the hash part, `rehash` gives it more nodes than keys.
pub rehash_sizes-room :
    (array : List Bool) (nodes : List Node)
    → (numuse array nodes).1 < 2 ^ 32
    → (numuse array nodes).1 < 2 ^ (rehash_sizes array nodes).1
unfolding rehash_sizes
rehash_sizes-room array nodes h = log2i-bound 32 (numuse array nodes).1 h
