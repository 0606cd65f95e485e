-- ===== src/HashTable/Sizes.antt =====
-- The sizes that `computesizes` chooses are the best ones, and leave room in the hash part.
use mathlib.Core.Path.{subst}
use dummyscheme.Common.{
  none, some, zero, suc, [], ◌∷◌, false, ℕ, List, take, refl, inl, inr, ◌<◌, ◌+◌, Option, ◌^◌, ◌≤◌,
  ◌-◌, ◌≡◌, ◌⊎◌, ◌*◌, Bool-cases, ltb, ◌&&◌, leb, ◌/◌, arith, ap, ◌∙◌, tests, if◌then◌else◌, ◌==◌,
  ==→eq,
}
use dummyscheme.HashTable.{log2i, size_loop, computesizes, sum, array_size}
use dummyscheme.Common.Powers.{two-pow_mono, two-pow-suc}

-- `2 ^ log2i` nodes are more than the keys they are for.
pub log2i-bound : (fuel x : ℕ) → x < 2 ^ fuel → x < 2 ^ log2i fuel x
unfolding log2i
log2i-bound zero x h = h
log2i-bound (suc fuel) x h = elim (Bool-cases (leb 1 x)) [
  | inl more ↦
      let half : x / 2 < 2 ^ fuel = omega (arith, h, two-pow-suc fuel) in
      rw more (omega (arith, log2i-bound fuel (x / 2) half, two-pow-suc (log2i fuel (x / 2))))
  | inr none_left ↦ rw none_left (ground (arith, none_left))
]

-- The keys that an array part of size `2 ^ (i + j)` holds, when `a` are counted before `i`.
abbrev held : ℕ → List ℕ → ℕ → ℕ
held a nums j = a + sum (take (suc j) nums)

-- What the loop gives: as many keys as any size holds that they fill by half, and the size
-- that it is given or one that they fill by half.
Chosen : List ℕ → ℕ → ℕ → ℕ → Option ℕ → ℕ × Option ℕ → Type 0
Chosen nums i a na n r =
    (na ≤ r.0)
    × ((j : ℕ) → 2 ^ (i + j - 1) ≤ held a nums j → held a nums j ≤ r.0)
    × (((r.1 ≡ n) × (r.0 ≡ na))
        ⊎ ((j : ℕ) × (r.1 ≡ some (i + j)) × (r.0 ≡ held a nums j) × (2 ^ (i + j - 1) ≤ r.0)))

fewer : (p q : ℕ) → leb p q ≡ false → q < p
fewer p q h = ground (arith, h)

-- All keys counted so far are held, or no size up to the last one is half filled by them.
Settled : ℕ → ℕ → ℕ → Type 0
Settled i a na = (na ≡ a) ⊎ (2 * a < 2 ^ (i - 1))

sum-take : (k : ℕ) (nums : List ℕ) → sum (take k nums) ≤ sum nums
sum-take zero nums = omega arith
sum-take (suc k) [] = omega arith
sum-take (suc k) (c ∷ nums) = omega (arith, sum-take k nums)

next_power : (i j : ℕ) → 2 ^ (i + suc j - 1) ≡ 2 ^ (suc i + j - 1)
next_power i j = ap (λ (t : ℕ). 2 ^ t) {x = i + suc j - 1} {y = suc i + j - 1} (omega arith)

this_power : (i : ℕ) → 2 ^ (i + 0 - 1) ≡ 2 ^ (i - 1)
this_power i = ap (λ (t : ℕ). 2 ^ t) {x = i + 0 - 1} {y = i - 1} (omega arith)

double_power : (i : ℕ) → 1 ≤ i → 2 ^ (suc i - 1) ≡ 2 * 2 ^ (i - 1)
double_power i h =
    ap (λ (t : ℕ). 2 ^ t) {x = suc i - 1} {y = suc (i - 1)} (omega (arith, h)) ∙ two-pow-suc (i - 1)

-- One count more in front.
Chosen-cons :
    (c : ℕ) (nums : List ℕ) (i a na next_na : ℕ) (n next_n : Option ℕ) (r : ℕ × Option ℕ)
    → na ≤ next_na
    → (2 ^ (i - 1) ≤ a + c → a + c ≤ next_na)
    → ((next_n ≡ n) × (next_na ≡ na))
      ⊎ ((next_n ≡ some i) × (next_na ≡ a + c) × (2 ^ (i - 1) ≤ next_na))
    → Chosen nums (suc i) (a + c) next_na next_n r
    → Chosen (c ∷ nums) i a na n r
unfolding Chosen
Chosen-cons c nums i a na next_na n next_n r more head kind (above, best, from) =
    (omega (arith, more, above), all, kept)
  where
    kept :
        ((r.1 ≡ n) × (r.0 ≡ na))
        ⊎ ((j : ℕ) × (r.1 ≡ some (i + j)) × (r.0 ≡ held a (c ∷ nums) j) × (2 ^ (i + j - 1) ≤ r.0))
    kept = elim from [
      | inl (e, f) ↦ elim kind [
        | inl (k, l) ↦ inl (e ∙ k, f ∙ l)
        | inr (k, l, m) ↦ inr (
          0,
          e ∙ k ∙ ap some (omega arith),
          omega (arith, f, l),
          omega (arith, f, m, this_power i),
        )
      ]
      | inr (j, e, f, g) ↦
          inr (suc j, e ∙ ap some (omega arith), omega (arith, f), omega (arith, g, next_power i j))
    ]

    all : (j : ℕ) → 2 ^ (i + j - 1) ≤ held a (c ∷ nums) j → held a (c ∷ nums) j ≤ r.0
    all zero half = omega (arith, head (omega (arith, half, this_power i)), above)
    all (suc j) half = omega (arith, best j (omega (arith, half, next_power i j)))

-- No size from `i` on is better once the loop stops.
stop-Chosen :
    (nums : List ℕ) (i a na : ℕ) (n : Option ℕ) (narray : ℕ)
    → narray ≡ a + sum nums
    → Settled i a na
    → (narray ≤ a) ⊎ (narray < 2 ^ (i - 1))
    → Chosen nums i a na n (na, n)
unfolding Chosen Settled
stop-Chosen nums i a na n narray whole inv reason = (omega arith, all, inl (refl, refl))
  where
    all : (j : ℕ) → 2 ^ (i + j - 1) ≤ held a nums j → held a nums j ≤ na
    all j half =
        let some_held = sum-take (suc j) nums in
        let power = two-pow_mono (i - 1) (i + j - 1) (omega arith) in
        elim reason [
          | inl counted ↦ elim inv [
            | inl e ↦ omega (arith, whole, counted, e, some_held)
            | inr small ↦ absurd (omega (arith, whole, counted, small, some_held, half, power))
          ]
          | inr short ↦ absurd (omega (arith, whole, short, some_held, half, power))
        ]

held-Settled : (i a c na : ℕ) → a ≡ a + c → Settled i a na → 2 ^ (i - 1) ≤ a + c → a + c ≤ na
unfolding Settled
held-Settled i a c na e (inl same) l = omega (arith, e, same)
held-Settled i a c na e (inr small) l = absurd (omega (arith, e, small, l))

Settled-suc : (i a na : ℕ) → 1 ≤ i → Settled i a na → Settled (suc i) a na
unfolding Settled
Settled-suc i a na h (inl same) = inl same
Settled-suc i a na h (inr small) = inr (omega (arith, small, double_power i h))

stop_reason :
    (a narray p : ℕ) → (ltb a narray && leb p narray) ≡ false → (narray ≤ a) ⊎ (narray < p)
stop_reason a narray p stop = elim (Bool-cases (ltb a narray)) [
  | inl more ↦ inr (ground (arith, stop, more))
  | inr counted ↦ inl (ground (arith, counted))
]

size_loop-Chosen :
    (nums : List ℕ) (i a na : ℕ) (n : Option ℕ) (narray : ℕ)
    → 1 ≤ i
    → narray ≡ a + sum nums
    → na ≤ a
    → Settled i a na
    → Chosen nums i a na n (size_loop nums i a na n narray)
unfolding size_loop Settled
size_loop-Chosen [] i a na n narray h whole below inv =
    stop-Chosen [] i a na n narray whole inv (inl (omega (arith, whole)))
size_loop-Chosen (c ∷ nums) i a na n narray h whole below inv =
    elim (Bool-cases (ltb a narray && leb (2 ^ (i - 1)) narray)) [
      | inl go ↦ elim (Bool-cases (ltb 0 c)) [
        | inl more ↦ elim (Bool-cases (leb (2 ^ (i - 1)) (a + c))) [
          | inl half ↦
              rw (go, more, half)
                (Chosen-cons c nums i a na (a + c) n (some i) _ (omega (arith, below))
                  (λ l. omega arith) (inr (refl, refl, omega (tests, half)))
                  (size_loop-Chosen nums (suc i) (a + c) (a + c) (some i) narray (omega arith)
                    (omega (arith, whole)) (omega arith) (inl refl)))
          | inr less ↦
              rw (go, more, less)
                (Chosen-cons c nums i a na na n n _ (omega arith)
                  (λ l. absurd (omega (arith, l, fewer (2 ^ (i - 1)) (a + c) less)))
                  (inl (refl, refl))
                  (size_loop-Chosen nums (suc i) (a + c) na n narray (omega arith)
                    (omega (arith, whole)) (omega (arith, below))
                    (inr (omega (arith, double_power i h, fewer (2 ^ (i - 1)) (a + c) less)))))
        ]
        | inr nothing ↦
            let e : a ≡ a + c = ground (arith, nothing) in
            rw (go, nothing)
              (Chosen-cons c nums i a na na n n _ (omega arith) (λ l. held-Settled i a c na e inv l)
                (inl (refl, refl))
                (subst (λ t. Chosen nums (suc i) t na n (size_loop nums (suc i) a na n narray)) e
                  (size_loop-Chosen nums (suc i) a na n narray (omega arith)
                    (omega (arith, whole, e)) below (Settled-suc i a na h inv))))
      ]
      | inr stop ↦ rw stop (
          stop-Chosen (c ∷ nums) i a na n narray whole inv
            (stop_reason a narray (2 ^ (i - 1)) stop))
    ]

-- The keys that an array part of size `2 ^ i` holds: those counted in the slices up to it.
abbrev pub held_by : List ℕ → ℕ → ℕ
held_by nums i = sum (take (suc i) nums)

-- An array part of no size with no key, or of a power of two that its keys fill by half.
abbrev pub IsHalfFull : List ℕ → ℕ → ℕ → Type 0
IsHalfFull nums size na =
    ((size ≡ 0) × (na ≡ 0)) ⊎ ((i : ℕ) × (size ≡ 2 ^ i) × (na ≡ held_by nums i) × (2 ^ i ≤ 2 * na))

first_size : ℕ → Option ℕ
first_size c = if c == 0 then none else some 0

module _ (c : ℕ) (nums : List ℕ) (r : ℕ × Option ℕ)
    (chosen : Chosen nums 1 c c (first_size c) r) where
  best_size : (i : ℕ) → 2 ^ i ≤ 2 * held_by (c ∷ nums) i → held_by (c ∷ nums) i ≤ r.0
  unfolding Chosen
  best_size zero half = omega (arith, chosen.0)
  best_size (suc j) half =
      let power : 2 ^ (1 + j - 1) ≡ 2 ^ j =
        ap (λ (t : ℕ). 2 ^ t) {x = 1 + j - 1} {y = j} (omega arith) in
      chosen.1 j (omega (arith, half, two-pow-suc j, power))

  half_full : IsHalfFull (c ∷ nums) (array_size r.1) r.0
  unfolding Chosen first_size
  half_full = elim chosen.2 [
    | inl (e, f) ↦ elim (Bool-cases (c == 0)) [
      | inl empty ↦
          let none_yet : first_size c ≡ none = rw empty refl in
          inl (ap array_size (e ∙ none_yet), f ∙ ==→eq c 0 empty)
      | inr used ↦
          let one : first_size c ≡ some 0 = rw used refl in
          inr (0, ap array_size (e ∙ one), omega (arith, f), ground (arith, used, f))
    ]
    | inr (j, e, f, g) ↦
        let power : 2 ^ (1 + j) ≡ 2 * 2 ^ (1 + j - 1) =
          ap (λ (t : ℕ). 2 ^ t) {x = 1 + j} {y = suc (1 + j - 1)} (omega arith)
          ∙ two-pow-suc (1 + j - 1) in
        inr (
          1 + j,
          ap array_size e,
          f ∙ ap (λ k. c + sum (take k nums)) {x = suc j} {y = 1 + j} (omega arith),
          omega (arith, g, power),
        )
  ]

-- The array part that `computesizes` chooses for the counts, and the number of keys left for the
-- hash part.
pub computesizes-best :
    (nums : List ℕ) (ntotal : ℕ)
    → (na : ℕ) × ((computesizes nums ntotal (sum nums)).1 ≡ ntotal - na)
      × ((i : ℕ) → 2 ^ i ≤ 2 * held_by nums i → held_by nums i ≤ na)
      × IsHalfFull nums (computesizes nums ntotal (sum nums)).0 na
unfolding computesizes first_size Settled
computesizes-best [] ntotal = (0, omega arith, λ i half. omega arith, inl (refl, refl))
computesizes-best (c ∷ nums) ntotal =
    let r = size_loop nums 1 c c (first_size c) (c + sum nums) in
    let chosen =
      size_loop-Chosen nums 1 c c (first_size c) (c + sum nums) (omega arith) refl (omega arith)
        (inl refl) in
    (r.0, refl, best_size c nums r chosen, half_full c nums r chosen)
