-- ===== src/Winds/Chains.antt =====
-- The chain of an object and its parents.
use mathlib.Core.Path.{subst}
use dummyscheme.Winds.{DynamicWindObj, wind_at, indywindchain}
use dummyscheme.Common.{
  none, List, ℕ, Option, ◌≡◌, Bool, All, some, false, true, length, ◌<◌, ◌∷◌, if◌then◌else◌, ◌++◌,
  ◌≤◌, arith, ◌==◌, [], Bool-cases, suc, refl, sym, zero, inl, ◌∙◌, ap, inr, some_inj,
}

-- The objects from a pointer to the end, the innermost first.
abbrev pub Chain : List DynamicWindObj → Option ℕ → List ℕ → Type 0
Chain winds h [] = h ≡ none
Chain winds h (i ∷ l) = (h ≡ some i) × Chain winds (wind_at winds i).parent l

-- Each object is younger than its parent.
abbrev pub IsOrdered : List DynamicWindObj → Type 0
IsOrdered winds = (i p : ℕ) → (wind_at winds i).parent ≡ some p → p < i

abbrev pub has : ℕ → List ℕ → Bool
has i [] = false
has i (j ∷ l) = if j == i then true else has i l

abbrev pub head_of : List ℕ → Option ℕ
head_of [] = none
head_of (i ∷ l) = some i

module _ (winds : List DynamicWindObj) where
  pub Chain-unique : (h : Option ℕ) (l m : List ℕ) → Chain winds h l → Chain winds h m → l ≡ m
  Chain-unique h [] [] c d = refl
  Chain-unique h [] (j ∷ m) c (e, d) = cc
  Chain-unique h (i ∷ l) [] (e, c) d = cc
  Chain-unique h (i ∷ l) (j ∷ m) (e, c) (f, d) =
      let same : i ≡ j = some_inj (sym e ∙ f) in
      let rest =
        Chain-unique (wind_at winds j).parent l m
          (subst (λ n. Chain winds (wind_at winds n).parent l) same c) d in
      cc

  pub Chain-head_of : (h : Option ℕ) (l : List ℕ) → Chain winds h l → h ≡ head_of l
  Chain-head_of h [] c = c
  Chain-head_of h (i ∷ l) c = c.0

  -- The part of a chain from one of its objects on.
  pub Chain-split :
      (h : Option ℕ) (t : List ℕ) (i : ℕ)
      → Chain winds h t
      → has i t ≡ true
      → (e r : List ℕ) × (t ≡ e ++ (i ∷ r)) × Chain winds (some i) (i ∷ r)
  Chain-split h [] i c found = cc
  Chain-split h (j ∷ t) i (e, c) found = elim (Bool-cases (j == i)) [
    | inl here ↦
        let same : j ≡ i = ground (arith, here) in
        (
          [],
          t,
          ap (λ (n : ℕ). n ∷ t) same,
          (refl, subst (λ n. Chain winds (wind_at winds n).parent t) same c),
        )
    | inr there ↦
        let later : has i (j ∷ t) ≡ has i t = rw there refl in
        let (pre, r, split, chain) =
          Chain-split (wind_at winds j).parent t i c (sym later ∙ found) in
        (j ∷ pre, r, ap (λ l. j ∷ l) split, chain)
  ]

  pub indywindchain-has :
      (fuel : ℕ) (h : Option ℕ) (l : List ℕ) (dy : ℕ)
      → length l ≤ fuel
      → Chain winds h l
      → indywindchain fuel winds h dy ≡ has dy l
  unfolding indywindchain
  indywindchain-has fuel h [] dy enough c = rw c refl
  indywindchain-has zero h (i ∷ l) dy enough c = absurd (omega arith)
  indywindchain-has (suc fuel) h (i ∷ l) dy enough (e, c) =
      let rest = indywindchain-has fuel (wind_at winds i).parent l dy (omega arith) c in
      rw (e, indywindchain, rest) refl

  module _ (ordered : IsOrdered winds) where
    -- Every object of a chain but the first is older than the first.
    pub Chain-below :
        (n : ℕ) (h : Option ℕ) (l : List ℕ)
        → ((p : ℕ) → h ≡ some p → p < n)
        → Chain winds h l
        → All (λ j. j < n) l
    Chain-below n h [] bound c = tt
    Chain-below n h (i ∷ l) bound (e, c) =
        let first = bound i e in
        (
          first,
          Chain-below n (wind_at winds i).parent l (λ p at. omega (arith, ordered i p at, first)) c,
        )

    pub Chain-of :
        (n : ℕ) (h : Option ℕ)
        → ((p : ℕ) → h ≡ some p → p < n)
        → (l : List ℕ) × Chain winds h l × (length l ≤ n)
    Chain-of n none bound = ([], refl, omega arith)
    Chain-of zero (some i) bound = absurd (omega (arith, bound i refl))
    Chain-of (suc n) (some i) bound =
        let first = bound i refl in
        let (l, chain, few) =
          Chain-of n (wind_at winds i).parent (λ p at. omega (arith, ordered i p at, first)) in
        (i ∷ l, (refl, chain), omega arith)

pub has-below : (i : ℕ) (l : List ℕ) → All (λ j. j < i) l → has i l ≡ false
has-below i [] h = refl
has-below i (j ∷ l) (first, h) =
    let rest = has-below i l h in
    let other : (j == i) ≡ false = ground (arith, first) in rw (other, rest) refl
