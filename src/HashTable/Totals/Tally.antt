-- ===== src/HashTable/Totals/Tally.antt =====
-- The counts of slots and nodes below a power of two.
use dummyscheme.Common.{
  none, some, zero, suc, [], ◌∷◌, true, false, ℕ, Bool, List, length, get_or, set, refl, inl, inr,
  ◌<◌, ◌≡◌, ◌+◌, ◌^◌, ◌-◌, arith, Bool-cases, ◌≤◌, if◌then◌else◌, Option-cases, leb, min, ap, ◌∙◌,
  Option, take, ltb, ltb→lt, length-set,
}
use dummyscheme.Common.Powers.{two-pow_mono}
use dummyscheme.HashTable.{
  log2i, arrayindex, Node, count_array, count_slice, count_nodes, sum, scmmaxbits, loop_end,
}
use dummyscheme.HashTable.Sizes.{held_by, log2i-bound}
use dummyscheme.HashTable.Counts.{arrayindex-bound, log2i-le}

pub count_slice-add :
    (array : List Bool) (i m n : ℕ)
    → count_slice array i (m + n) ≡ count_slice array i m + count_slice array (i + m) n
unfolding count_slice
count_slice-add array i zero n =
    ap (λ t. count_slice array i t) {x = 0 + n} {y = n} (omega arith)
    ∙ ap (λ t. count_slice array t n) {x = i} {y = i + 0} (omega arith)
    ∙ omega arith
count_slice-add array i (suc m) n =
    let rest =
      count_slice-add array (suc i) m n
      ∙ ap (λ t. count_slice array (suc i) m + count_slice array t n) {x = suc i + m}
          {y = i + suc m} (omega arith) in
    ap (λ t. count_slice array i t) {x = suc m + n} {y = suc (m + n)} (omega arith)
    ∙ (elim (Bool-cases (get_or array i false)) [
      | inl used ↦ rw used (omega (arith, rest))
      | inr free ↦ rw free (omega (arith, rest))
    ])

pub count_slice-nothing : (array : List Bool) (i n : ℕ) → n ≡ 0 → count_slice array i n ≡ 0
unfolding count_slice
count_slice-nothing array i zero h = refl
count_slice-nothing array i (suc n) h = absurd (omega (arith, h))

loop_end-le : (i m : ℕ) → i ≤ m → loop_end i m ≡ m
loop_end-le i m h = ground (arith, h)

-- The counts up to a power of two are those of the slots below it.
pub count_array-held :
    (array : List Bool) (j i lg left : ℕ)
    → j < left
    → i ≤ min (2 ^ lg) (length array)
    → sum (take (suc j) (count_array array i lg left))
      ≡ count_slice array i (min (2 ^ (lg + j)) (length array) - i)
unfolding count_array
count_array-held array j i lg zero h below = absurd (omega arith)
count_array-held array zero i lg (suc left) h below = omega (
  arith,
  ap (λ t. count_slice array i (min (2 ^ t) (length array) - i)) {x = lg} {y = lg + 0}
      (omega arith),
)
count_array-held array (suc j) i lg (suc left) h below =
    let m = min (2 ^ lg) (length array) in
    let last = min (2 ^ (suc lg + j)) (length array) in
    let grows = two-pow_mono lg (suc lg) (omega arith) in
    let far = two-pow_mono lg (suc lg + j) (omega arith) in
    let rest = count_array-held array j m (suc lg) left (omega arith) (omega (arith, grows)) in
    let joined = count_slice-add array i (m - i) (last - m) in
    omega (
      arith,
      ap (λ t. sum (take (suc j) (count_array array t (suc lg) left))) (loop_end-le i m below),
      rest,
      joined,
      ap (λ t. count_slice array t (last - m)) {x = i + (m - i)} {y = m} (omega (arith, below)),
      ap (λ t. count_slice array i t) {x = (m - i) + (last - m)} {y = last - i}
          (omega (arith, below, far)),
      ap (λ t. count_slice array i (min (2 ^ t) (length array) - i)) {x = suc lg + j}
          {y = lg + suc j} (omega arith),
    )

-- The live nodes whose key has an index up to a size, and the other live ones.
abbrev pub fits : ℕ → Option ℕ → ℕ
fits size none = 0
fits size (some k) = if leb k size then 1 else 0

abbrev pub fitting : ℕ → List Node → ℕ
fitting size [] = 0
fitting size (n ∷ nodes) = (if n.live then fits size (arrayindex n.key) else 0) + fitting size nodes

abbrev pub unfitting : ℕ → List Node → ℕ
unfitting size [] = 0
unfitting size (n ∷ nodes) =
    (if n.live then 1 - fits size (arrayindex n.key) else 0) + unfitting size nodes

abbrev pub live_nodes : List Node → ℕ
live_nodes [] = 0
live_nodes (n ∷ nodes) = (if n.live then 1 else 0) + live_nodes nodes

fits-le : (size : ℕ) (o : Option ℕ) → fits size o ≤ 1
fits-le size none = omega arith
fits-le size (some k) = ground arith

pub fitting-unfitting :
    (size : ℕ) (nodes : List Node) → fitting size nodes + unfitting size nodes ≡ live_nodes nodes
fitting-unfitting size [] = refl
fitting-unfitting size (n ∷ nodes) =
    let rest = fitting-unfitting size nodes in
    let few = fits-le size (arrayindex n.key) in ground (arith, rest, few)

held-set :
    (nums : List ℕ) (lg n : ℕ)
    → lg < length nums
    → sum (take n (set nums lg (suc (get_or nums lg 0))))
      ≡ sum (take n nums) + (if ltb lg n then 1 else 0)
held-set [] lg n h = absurd (omega arith)
held-set (c ∷ nums) lg zero h = ground arith
held-set (c ∷ nums) zero (suc n) h = ground arith
held-set (c ∷ nums) (suc lg) (suc n) h =
    let rest = held-set nums lg n (omega arith) in ground (arith, rest)

-- The slot of `nums` for an index is at most `i` exactly if the index is at most `2 ^ i`.
fits-log2i :
    (i k : ℕ)
    → k - 1 < 2 ^ scmmaxbits
    → (if ltb (log2i 32 (k - 1)) (suc i) then 1 else 0) ≡ fits (2 ^ i) (some k)
fits-log2i i k inside =
    let lg = log2i 32 (k - 1) in
    let wide : 2 ^ scmmaxbits ≤ 2 ^ 32 = omega arith in
    let near = log2i-bound 32 (k - 1) (omega (arith, inside, wide)) in
    let positive = two-pow_mono 0 i (omega arith) in
    elim (Bool-cases (ltb lg (suc i))) [
      | inl low ↦
          let power = two-pow_mono lg i (omega (arith, ltb→lt lg (suc i) low)) in
          let test : leb k (2 ^ i) ≡ true = ground (arith, near, power) in rw (low, test) refl
      | inr high ↦ elim (Bool-cases (leb k (2 ^ i))) [
        | inr test ↦ rw (high, test) refl
        | inl test ↦
            let small = log2i-le 32 (k - 1) i (ground (arith, test, positive)) in
            absurd (ground (arith, small, high))
      ]
    ]

pub count_nodes-held :
    (i : ℕ) (nodes : List Node) (nums : List ℕ) (narray total : ℕ)
    → length nums ≡ scmmaxbits + 1
    → (held_by (count_nodes nodes nums narray total).0 i ≡ held_by nums i + fitting (2 ^ i) nodes)
      × ((count_nodes nodes nums narray total).2 ≡ total + live_nodes nodes)
unfolding count_nodes
count_nodes-held i [] nums narray total size = (omega arith, omega arith)
count_nodes-held i (n ∷ nodes) nums narray total size = elim (Bool-cases n.live) [
  | inl live ↦ elim (Option-cases (arrayindex n.key)) [
    | inl none_fit ↦
        let (held, whole) = count_nodes-held i nodes nums narray (suc total) size in
        rw (live, none_fit) (omega (arith, held), omega (arith, whole))
    | inr (k, there) ↦
        let lg = log2i 32 (k - 1) in
        let added = set nums lg (suc (get_or nums lg 0)) in
        let inside = arrayindex-bound n.key k there in
        let near = log2i-le 32 (k - 1) scmmaxbits inside in
        let (held, whole) =
          count_nodes-held i nodes added (suc narray) (suc total)
            (length-set nums lg (suc (get_or nums lg 0)) ∙ size) in
        let one = held-set nums lg (suc i) (omega (arith, near, size)) in
        let enough = fits-log2i i k inside in
        rw (live, there) (omega (arith, held, one, enough), omega (arith, whole))
  ]
  | inr dead ↦
      let (held, whole) = count_nodes-held i nodes nums narray total size in
      rw dead (omega (arith, held), omega (arith, whole))
]

pub take-whole : (n : ℕ) (nums : List ℕ) → sum (take n nums) ≤ sum nums
take-whole zero nums = omega arith
take-whole (suc n) [] = omega arith
take-whole (suc n) (c ∷ nums) = omega (arith, take-whole n nums)

pub take-all : (n : ℕ) (nums : List ℕ) → length nums ≤ n → sum (take n nums) ≡ sum nums
take-all zero [] h = refl
take-all zero (c ∷ nums) h = absurd (omega arith)
take-all (suc n) [] h = refl
take-all (suc n) (c ∷ nums) h = omega (arith, take-all n nums (omega arith))
