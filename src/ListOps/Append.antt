-- ===== src/ListOps/Append.antt =====
-- `append` makes the last pair of its first list go on to the second.
use mathlib.Core.Path.{subst}
use dummyscheme.Common.{
  some, zero, suc, [], ◌∷◌, ℕ, List, length, refl, ◌<◌, ◌++◌, All, ◌≡◌, sym, arith, ◌≢◌, ◌∙◌,
}
use dummyscheme.ListLength.{Value, Pair, null, pair, cdr_of}
use dummyscheme.ListOps.{set_cdr, last_pair, append}
use dummyscheme.ListOps.Chain.{
  Chain, Misses, Distinct, Apart, cdr_of-set_cdr_self, length-set_cdr, cdr_of-set_cdr_ne, car_at,
  car_at-set_cdr, Chain-set_cdr,
}

-- The last pair: it is one of the pairs, and with `t` as its cdr the list goes on to `t`.
last_pair_lem :
    (later : List ℕ) (fuel : ℕ) (heap : List Pair) (a : ℕ) (t : Value)
    → length later < fuel
    → Distinct (a ∷ later)
    → Chain heap (pair a) (a ∷ later) null
    → (l : ℕ) × (last_pair fuel heap a ≡ some l)
      × Chain (set_cdr heap l t) (pair a) (a ∷ later) t
      × ((P : ℕ → Type 0) → All P (a ∷ later) → P l)
unfolding last_pair
last_pair_lem later zero heap a t enough distinct h = absurd (omega arith)
last_pair_lem [] (suc fuel) heap a t enough distinct h = (
  a,
  rw (last_pair, h.2) refl,
  (refl, omega (arith, h.1, length-set_cdr heap a t), cdr_of-set_cdr_self heap a t h.1),
  λ P all. all.0,
)
last_pair_lem (b ∷ later) (suc fuel) heap a t enough distinct h =
    let (l, run, chain, among) =
      last_pair_lem later fuel heap b t (omega (arith, enough)) distinct.1 (refl, h.2.1, h.2.2) in
    let other : a ≢ l = among (λ x. a ≢ x) distinct.0 in
    (
      l,
      rw (last_pair, h.2.0) run,
      (
        refl,
        omega (arith, h.1, length-set_cdr heap l t),
        (cdr_of-set_cdr_ne heap l a t (λ e. other (sym e)) ∙ h.2.0, chain.1, chain.2),
      ),
      λ P all. among P all.1,
    )

Chain-append :
    (front back : List ℕ) (heap : List Pair) (v t end : Value)
    → Chain heap v front t
    → Chain heap t back end
    → Chain heap v (front ++ back) end
Chain-append [] back heap v t end h k = subst (λ u. Chain heap u back end) (sym h) k
Chain-append (a ∷ front) back heap v t end h k =
    (h.0, h.1, Chain-append front back heap (cdr_of heap a) t end h.2 k)

Apart-Misses : (front back : List ℕ) → Apart front back → All (λ l. Misses l back) front
Apart-Misses [] back h = tt
Apart-Misses (a ∷ front) back h = (h.0, Apart-Misses front back h.1)

-- For two proper lists without a common pair, the first without a pair that occurs twice, and
-- more rounds than the first has pairs, `append` succeeds and gives a proper list of the pairs of
-- the first and then those of the second, and the car of every pair stays.
pub append-Chain :
    (fuel : ℕ) (heap : List Pair) (v t : Value) (front back : List ℕ)
    → length front < fuel
    → Distinct front
    → Apart front back
    → Chain heap v front null
    → Chain heap t back null
    → (after : List Pair) × (w : Value) × (append fuel heap v t ≡ some (after, w))
      × Chain after w (front ++ back) null
      × ((x : ℕ) → car_at after x ≡ car_at heap x)
unfolding append
append-Chain fuel heap v t [] back enough distinct apart h k = (heap, t, rw h refl, k, λ x. refl)
append-Chain fuel heap v t (a ∷ front) back enough distinct apart h k =
    let (l, run, chain, among) =
      last_pair_lem front fuel heap a t (omega (arith, enough)) distinct (refl, h.1, h.2) in
    let misses = among (λ x. Misses x back) (Apart-Misses (a ∷ front) back apart) in
    (
      set_cdr heap l t,
      pair a,
      rw (h.0, append, run) refl,
      Chain-append (a ∷ front) back (set_cdr heap l t) (pair a) t null chain
          (Chain-set_cdr heap l t t back null misses k),
      λ x. car_at-set_cdr heap l x t,
    )
