-- ===== src/Interns/Resize.antt =====
-- `checkResize`: what stands in the table after it when it has fewer objects than chains, where
-- `realloc` may clear chains that are in use, and that it does not end when it has not.
use native.Mathlib.Nat.{mod-lt}
use mathlib.Core.Path.{subst}
use dummyscheme.Common.{
  none, some, zero, suc, [], ◌∷◌, true, false, ℕ, List, length, refl, inl, inr, take, ◌≤◌, ◌<◌, ◌≡◌,
  leb, arith, ◌%◌, ◌↔◌, ◌*◌, Bool-cases, ap, length-take, ◌∙◌, ltb, sym, ◌/◌, tests, ◌&&◌, ◌++◌,
  ◌⊎◌, replicate, ◌-◌, length-append, length-replicate,
}
use dummyscheme.Interns.{
  Sym, Interns, grow, shrink, check_resize, shrink_table, grow_table, with_buckets, blistlen,
  init_len, max, realloc_buckets,
}
use dummyscheme.Interns.Invariant.{At, both, empty-At}
use dummyscheme.Interns.Identity.{StandsIn}
use dummyscheme.Interns.Rehash.{IsSmall, rehash-Moved, Ordered}

grow-eq-none : (fuel count len newl : ℕ) → len ≤ count → grow fuel count len newl ≡ none
unfolding grow
grow-eq-none zero count len newl h = refl
grow-eq-none (suc fuel) count len newl h =
    let full : leb len count ≡ true = ground (arith, h) in
    rw full (grow-eq-none fuel count len (newl * 2) h)

-- For a table with at least as many objects as chains, the loop of `checkResize` that looks for
-- the new length does not end, whatever the fuel.
pub check_resize-eq-none :
    (t : Interns) (fuel : ℕ) → blistlen t ≤ t.bcount → check_resize fuel t ≡ none
unfolding check_resize grow_table
check_resize-eq-none t fuel h =
    let full : leb (blistlen t) t.bcount ≡ true = ground (arith, h) in
    rw (full, grow-eq-none fuel t.bcount (blistlen t) (blistlen t * 2) h) refl

shrink_lem :
    (fuel count newl : ℕ)
    → newl < fuel
    → count < newl
    → (least : ℕ) × (shrink fuel count newl ≡ some least) × (least ≤ newl) × (count < least)
unfolding shrink
shrink_lem zero count newl h k = absurd (omega arith)
shrink_lem (suc fuel) count newl h k = elim (Bool-cases (ltb count (newl / 4))) [
  | inl less ↦
      let (least, run, below, above) =
        shrink_lem fuel count (newl / 2) (omega arith) (omega (tests, less)) in
      (least, rw less run, omega (arith, below), above)
  | inr enough ↦ (newl, rw enough refl, omega arith, k)
]

At-take :
    (n : ℕ) (table : List (List Sym)) (j : ℕ) (y : Sym)
    → At (take n table) j y
    → (j < n) × At table j y
At-take zero table j y k = absurd k
At-take (suc n) [] j y k = absurd k
At-take (suc n) (chain ∷ table) zero y k = (omega arith, k)
At-take (suc n) (chain ∷ table) (suc j) y k =
    let (below, there) = At-take n table j y k in (omega (arith, below), there)

At-take_old :
    (n : ℕ) (table : List (List Sym)) (j : ℕ) (y : Sym)
    → j < n
    → At table j y
    → At (take n table) j y
At-take_old zero table j y h k = absurd (omega arith)
At-take_old (suc n) [] j y h k = absurd k
At-take_old (suc n) (chain ∷ table) zero y h k = k
At-take_old (suc n) (chain ∷ table) (suc j) y h k = At-take_old n table j y (omega arith) k

At-append :
    (table : List (List Sym)) (n j : ℕ) (y : Sym) → At (table ++ replicate n []) j y → At table j y
At-append [] n j y k = absurd (empty-At n j y k)
At-append (chain ∷ table) n zero y k = k
At-append (chain ∷ table) n (suc j) y k = At-append table n j y k

At-append_old :
    (table more : List (List Sym)) (j : ℕ) (y : Sym) → At table j y → At (table ++ more) j y
At-append_old [] more j y k = absurd k
At-append_old (chain ∷ table) more zero y k = k
At-append_old (chain ∷ table) more (suc j) y k = At-append_old table more j y k

length-realloc_buckets :
    (table : List (List Sym)) (len newl : ℕ)
    → len ≤ length table
    → length (realloc_buckets table len newl) ≡ newl
unfolding realloc_buckets
length-realloc_buckets table len newl h =
    let front = take (len / 8) table in
    let more : List (List Sym) = replicate (newl - len / 8) [] in
    omega (
      arith,
      length-take newl (front ++ more),
      length-append front more,
      length-take (len / 8) table,
      length-replicate {A = List Sym} (newl - len / 8) [],
    )

-- The chains that are left.
At-realloc_buckets :
    (table : List (List Sym)) (len newl j : ℕ) (y : Sym)
    → At (realloc_buckets table len newl) j y ↔ ((j < newl) × (j < len / 8) × At table j y)
unfolding realloc_buckets
At-realloc_buckets table len newl j y = (
  λ there.
      let (below, kept) =
        At-take newl (take (len / 8) table ++ replicate (newl - len / 8) []) j y there in
      let (near, found) =
        At-take (len / 8) table j y (At-append (take (len / 8) table) (newl - len / 8) j y kept) in
      (below, near, found),
  λ (below, near, there).
      At-take_old newl (take (len / 8) table ++ replicate (newl - len / 8) []) j y below (
        At-append_old (take (len / 8) table) (replicate (newl - len / 8) []) j y
          (At-take_old (len / 8) table j y near there)),
)

-- `u` has fewer chains than `t`, and the objects of `t` whose new chain is one of the first
-- eighth of the old number, in those chains.
abbrev pub Shrunk : Interns → Interns → Type 0
Shrunk t u =
    (blistlen u < blistlen t)
    × ((j : ℕ) (x : Sym)
        → At u.bucketlist j x ↔ ((x.hash % blistlen u ≡ j) × (j < blistlen t / 8) × StandsIn t x))

-- The table that `shrink_table` makes of chains in order for `newl`.
module _ (t : Interns) (newl : ℕ) (positive : 1 ≤ newl) (room : newl < blistlen t)
    (result : List (List Sym)) (ordered : Ordered newl t.bucketlist result) where
  abbrev resized : Interns
  resized = with_buckets t (realloc_buckets result (blistlen t) newl)

  length-resized : blistlen resized ≡ newl
  length-resized = length-realloc_buckets result (blistlen t) newl (omega (arith, ordered.0))

  resized-Shrunk : Shrunk t resized
  resized-Shrunk = (
    omega (arith, length-resized, room),
    λ j x.
        let kept = At-realloc_buckets result (blistlen t) newl j x in
        (
          λ there.
              let (below, near, found) = kept.0 there in
              let (place, home) = ordered.2 j x found in
              (ap (λ m. x.hash % m) length-resized ∙ place, near, home),
          λ (place, near, (i, there)).
              let same : x.hash % newl ≡ j = ap (λ m. x.hash % m) (sym length-resized) ∙ place in
              kept.1 (
                omega (arith, same, mod-lt x.hash positive),
                near,
                subst (λ k. At result k x) same (ordered.3 i x there),
              ),
        ),
  )

shrink_table-Shrunk :
    (t : Interns) (fuel : ℕ)
    → ((i : ℕ) (x : Sym) → At t.bucketlist i x → IsSmall x)
    → t.bcount < blistlen t / 2
    → blistlen t ≤ fuel
    → init_len < blistlen t
    → (u : Interns) × (shrink_table fuel t ≡ some u)
      × (u.bcount ≡ t.bcount)
      × (u.bcount < blistlen u)
      × Shrunk t u
unfolding shrink_table
shrink_table-Shrunk t fuel small below enough long =
    let (least, run, under, above) =
      shrink_lem fuel t.bcount (blistlen t / 2) (omega (arith, long)) below in
    let newl = max least init_len in
    let positive : 1 ≤ newl = ground arith in
    let room : newl < blistlen t = ground (arith, under, long) in
    let most : t.bcount < newl = ground (arith, above) in
    let (result, rerun, ordered) =
      rehash-Moved newl positive (blistlen t) 0 t.bucketlist (omega (arith, room)) (omega arith)
        small (λ j x l. absurd (omega (arith, l))) in
    (
      resized t newl positive room result ordered,
      rw (run, rerun) refl,
      refl,
      omega (arith, most, length-resized t newl positive room result ordered),
      resized-Shrunk t newl positive room result ordered,
    )

-- For a table with fewer objects than chains and no negative hash value, `checkResize` ends
-- within as many rounds as there are chains, keeps the count of objects, and leaves more chains
-- than that: it gives the table itself, or one with fewer chains, in each of which an object
-- stands exactly if it stood in the table, the chain is that of its hash value for the new number
-- of chains, and the chain is in the first eighth of the old number.
pub check_resize-Shrunk :
    (t : Interns) (fuel : ℕ)
    → ((i : ℕ) (x : Sym) → At t.bucketlist i x → IsSmall x)
    → t.bcount < blistlen t
    → blistlen t ≤ fuel
    → (u : Interns) × (check_resize fuel t ≡ some u)
      × (u.bcount ≡ t.bcount)
      × (u.bcount < blistlen u)
      × ((u ≡ t) ⊎ Shrunk t u)
unfolding check_resize
check_resize-Shrunk t fuel small below enough =
    let some_free : leb (blistlen t) t.bcount ≡ false = ground (arith, below) in
    elim (Bool-cases (ltb t.bcount (blistlen t / 4) && ltb init_len (blistlen t))) [
      | inl sparse ↦
          let (few, long) = both (ltb t.bcount (blistlen t / 4)) _ sparse in
          let (u, run, same, less, shrunk) =
            shrink_table-Shrunk t fuel small (omega (tests, few)) enough (omega (tests, long)) in
          (u, rw (some_free, sparse) run, same, less, inr shrunk)
      | inr dense ↦ (t, rw (some_free, dense) refl, refl, below, inl refl)
    ]
