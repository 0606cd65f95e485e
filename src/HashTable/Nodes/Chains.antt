-- ===== src/HashTable/Nodes/Chains.antt =====
-- The chains of nodes, as the lists of the indices that a pointer leads through.
use dummyscheme.Common.{
  zero, suc, none, some, [], ◌∷◌, ℕ, List, length, Option, ◌++◌, All, arith, inl, inr, ◌⊎◌, ◌≡◌,
  refl, sym, ap, ◌∙◌, length-append, ap₂, ◌<◌, if◌then◌else◌, ◌≢◌, Bool-cases, ◌≤◌, suc, ◌==◌,
  ==-false→ne, ==→eq,
}
use mathlib.Core.Path.{subst}
use dummyscheme.HashTable.Nodes.{TableNode}

abbrev pub In : ℕ → List ℕ → Type 0
In i [] = ⊥
In i (j ∷ l) = (i ≡ j) ⊎ In i l

pub All-In {κ} : (P : ℕ → Type κ) (l : List ℕ) → ((i : ℕ) → In i l → P i) → All P l
All-In P [] h = tt
All-In P (j ∷ l) h = (h j (inl refl), All-In P l (λ i m. h i (inr m)))

pub In-All {κ} : (P : ℕ → Type κ) (l : List ℕ) (i : ℕ) → All P l → In i l → P i
In-All P [] i h m = absurd m
In-All P (j ∷ l) i h (inl e) = subst P (sym e) h.0
In-All P (j ∷ l) i h (inr m) = In-All P l i h.1 m

pub In-append_right : (a b : List ℕ) (i : ℕ) → In i b → In i (a ++ b)
In-append_right [] b i m = m
In-append_right (j ∷ a) b i m = inr (In-append_right a b i m)

pub In-append_left : (a b : List ℕ) (i : ℕ) → In i a → In i (a ++ b)
In-append_left [] b i m = absurd m
In-append_left (j ∷ a) b i (inl e) = inl e
In-append_left (j ∷ a) b i (inr m) = inr (In-append_left a b i m)

pub In-append_cases : (a b : List ℕ) (i : ℕ) → In i (a ++ b) → In i a ⊎ In i b
In-append_cases [] b i m = inr m
In-append_cases (j ∷ a) b i (inl e) = inl (inl e)
In-append_cases (j ∷ a) b i (inr m) = elim (In-append_cases a b i m) [
  | inl here ↦ inl (inr here)
  | inr there ↦ inr there
]

pub In-cut : (l : List ℕ) (i : ℕ) → In i l → (a b : List ℕ) × (l ≡ a ++ i ∷ b)
In-cut [] i m = absurd m
In-cut (j ∷ l) i (inl e) = ([], l, ap (λ t. t ∷ l) (sym e))
In-cut (j ∷ l) i (inr m) = let (a, b, e) = In-cut l i m in (j ∷ a, b, ap (λ t. j ∷ t) e)

lt_of_ne : (i n : ℕ) → i < suc n → i ≢ n → i < n
lt_of_ne i n h ne = grind arith

abbrev pub Once : List ℕ → Type 0
Once [] = Unit
Once (i ∷ l) = (In i l → ⊥) × Once l

without : ℕ → List ℕ → List ℕ
without n [] = []
without n (i ∷ l) = let rest = without n l in if i == n then rest else i ∷ rest

without-In : (n : ℕ) (l : List ℕ) (i : ℕ) → In i (without n l) → In i l × (i ≢ n)
unfolding without
without-In n [] i m = absurd m
without-In n (j ∷ l) i m = elim (Bool-cases (j == n)) [
  | inl same ↦
      let (there, ne) = without-In n l i (subst (λ t. In i t) (rw (without, same) refl) m) in
      (inr there, ne)
  | inr differ ↦ elim (subst (λ t. In i t) {y = j ∷ without n l} (rw (without, differ) refl) m) [
    | inl e ↦ (inl e, λ d. ==-false→ne j n differ (sym e ∙ d))
    | inr later ↦ let (there, ne) = without-In n l i later in (inr there, ne)
  ]
]

without-Once : (n : ℕ) (l : List ℕ) → Once l → Once (without n l)
unfolding without
without-Once n [] once = tt
without-Once n (j ∷ l) (fresh, once) = elim (Bool-cases (j == n)) [
  | inl same ↦ rw same (without-Once n l once)
  | inr differ ↦ rw differ (λ m. fresh (without-In n l j m).0, without-Once n l once)
]

without-fresh : (n : ℕ) (l : List ℕ) → (In n l → ⊥) → length (without n l) ≡ length l
unfolding without
without-fresh n [] h = refl
without-fresh n (j ∷ l) h = elim (Bool-cases (j == n)) [
  | inl same ↦ absurd (h (inl (sym (==→eq j n same))))
  | inr differ ↦ rw differ (ap suc (without-fresh n l (λ m. h (inr m))))
]

length-without : (n : ℕ) (l : List ℕ) → Once l → length l ≤ suc (length (without n l))
unfolding without
length-without n [] once = omega arith
length-without n (j ∷ l) (fresh, once) = elim (Bool-cases (j == n)) [
  | inl same ↦
      rw same (
        omega
          (arith, without-fresh n l (λ m. fresh (subst (λ t. In t l) (sym (==→eq j n same)) m))))
  | inr differ ↦ rw differ (omega (arith, length-without n l once))
]

-- A list of numbers below `n` with none twice has at most `n` of them.
pub length-Once : (n : ℕ) (l : List ℕ) → Once l → ((i : ℕ) → In i l → i < n) → length l ≤ n
length-Once zero [] once below = omega arith
length-Once zero (i ∷ l) once below = absurd (omega (arith, below i (inl refl)))
length-Once (suc n) l once below =
    let rest =
      length-Once n (without n l) (without-Once n l once)
        λ i m. let (there, ne) = without-In n l i m in lt_of_ne i n (below i there) ne in
    omega (arith, rest, length-without n l once)

module _ {K V : Type 0} (home : K → ℕ) where
  -- The node is in use, by a key of the main position.
  abbrev pub Used : (ℕ → TableNode K V) → ℕ → ℕ → Type 0
  Used f h i = (k : K) × ((f i).key ≡ some k) × (home k ≡ h)

  -- The pointer leads through nodes of one main position to the end.
  abbrev pub Leads : (ℕ → TableNode K V) → ℕ → Option ℕ → List ℕ → Option ℕ → Type 0
  Leads f h v [] end = v ≡ end
  Leads f h v (i ∷ l) end = (v ≡ some i) × Used f h i × Leads f h (f i).next l end

  module _ (f : ℕ → TableNode K V) (h : ℕ) where
    pub Leads-frame :
        (g : ℕ → TableNode K V) (v : Option ℕ) (l : List ℕ) (end : Option ℕ)
        → All (λ i. g i ≡ f i) l
        → Leads f h v l end
        → Leads g h v l end
    Leads-frame g v [] end same c = c
    Leads-frame g v (i ∷ l) end same (e, (k, there, at), rest) = (
      e,
      (k, ap (λ (n : TableNode K V). n.key) same.0 ∙ there, at),
      Leads-frame g (g i).next l end same.1 (
          subst (λ (p : Option ℕ). Leads f h p l end)
            (ap (λ (n : TableNode K V). n.next) (sym same.0)) rest),
    )

    pub Leads-append :
        (v : Option ℕ) (a b : List ℕ) (mid end : Option ℕ)
        → Leads f h v a mid
        → Leads f h mid b end
        → Leads f h v (a ++ b) end
    Leads-append v [] b mid end c d = subst (λ (p : Option ℕ). Leads f h p b end) (sym c) d
    Leads-append v (i ∷ a) b mid end (e, used, c) d =
        (e, used, Leads-append (f i).next a b mid end c d)

    -- A chain cut before one of its nodes.
    pub Leads-cut :
        (v : Option ℕ) (a : List ℕ) (i : ℕ) (b : List ℕ) (end : Option ℕ)
        → Leads f h v (a ++ i ∷ b) end
        → Leads f h v a (some i) × Leads f h (some i) (i ∷ b) end
    Leads-cut v [] i b end (e, used, c) = (e, (refl, used, c))
    Leads-cut v (j ∷ a) i b end (e, used, c) =
        let (front, back) = Leads-cut (f j).next a i b end c in ((e, used, front), back)

    pub Leads-suffix :
        (v : Option ℕ) (l : List ℕ) (i : ℕ) (end : Option ℕ)
        → In i l
        → Leads f h v l end
        → (a b : List ℕ) × (l ≡ a ++ i ∷ b) × Leads f h (some i) (i ∷ b) end
    Leads-suffix v l i end m c =
        let (a, b, e) = In-cut l i m in
        (a, b, e, (Leads-cut v a i b end (subst (λ t. Leads f h v t end) e c)).1)

    pub Leads-Used :
        (v : Option ℕ) (l : List ℕ) (i : ℕ) (end : Option ℕ)
        → In i l
        → Leads f h v l end
        → Used f h i
    Leads-Used v [] i end m c = absurd m
    Leads-Used v (j ∷ l) i end (inl e) c = subst (λ t. Used f h t) (sym e) c.1
    Leads-Used v (j ∷ l) i end (inr m) c = Leads-Used (f j).next l i end m c.2

  -- The node that a pointer leads to first.
  pub Leads-start :
      (f : ℕ → TableNode K V) (h i : ℕ) (l : List ℕ) → Leads f h (some i) l none → Used f h i
  Leads-start f h i [] c = cc
  Leads-start f h i (j ∷ l) (e, used, c) =
      let same : i ≡ j = cc in subst (λ t. Used f h t) (sym same) used

  -- A pointer leads through one list only.
  pub Leads-unique :
      (f : ℕ → TableNode K V) (h g : ℕ) (v : Option ℕ) (l m : List ℕ)
      → Leads f h v l none
      → Leads f g v m none
      → l ≡ m
  Leads-unique f h g v [] [] c d = refl
  Leads-unique f h g v [] (j ∷ m) c d = cc
  Leads-unique f h g v (i ∷ l) [] c d = cc
  Leads-unique f h g v (i ∷ l) (j ∷ m) (e, used, c) (d, also, r) =
      let same : i ≡ j = cc in
      ap₂ (λ (t : ℕ) (u : List ℕ). t ∷ u) same
        (Leads-unique f h g (f i).next l m c
          (subst (λ t. Leads f g (f t).next m none) (sym same) r))

  -- No node stands in a chain twice.
  pub Leads-once :
      (f : ℕ → TableNode K V) (h : ℕ) (v : Option ℕ) (i : ℕ) (l : List ℕ)
      → Leads f h v (i ∷ l) none
      → In i l
      → ⊥
  Leads-once f h v i l (e, used, c) m =
      let (a, b, cut, again) = Leads-suffix f h (f i).next l i none m c in
      let same = Leads-unique f h h (some i) (i ∷ b) (i ∷ l) again (refl, used, c) in
      absurd (
        omega (
          arith,
          ap (λ (t : List ℕ). length t) same,
          ap (λ (t : List ℕ). length t) cut,
          length-append a (i ∷ b),
        ))

  pub Leads-Once :
      (f : ℕ → TableNode K V) (h : ℕ) (v : Option ℕ) (l : List ℕ) → Leads f h v l none → Once l
  Leads-Once f h v [] c = tt
  Leads-Once f h v (i ∷ l) c = (Leads-once f h v i l c, Leads-Once f h (f i).next l c.2)
