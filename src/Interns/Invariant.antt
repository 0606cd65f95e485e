-- ===== src/Interns/Invariant.antt =====
-- The invariant of the table, and that `intern` keeps it.
use mathlib.Core.Option.{none-ne-some, some-injective, some-ne-none}
use mathlib.Core.Path.{subst, transport}
use mathlib.Core.Bool.{false≢true}
use dummyscheme.Common.{
  none, some, zero, suc, [], ◌∷◌, true, false, ℕ, Bool, List, length, get_or, set, refl, inl, inr,
  ◌≡◌, ◌+◌, ◌≤◌, ◌⊎◌, ◌%◌, Bool-cases, arith, ◌≢◌, ◌<◌, ◌==◌, ap₂, ==→eq, ◌&&◌, sym, if_split, ap,
  ◌∙◌, ==-false→ne, replicate, length-replicate,
}
use dummyscheme.Interns.{Sym, Interns, blistlen, hash, same_bytes, chain_find}

-- An object in a chain, and in a table at a place.
abbrev pub InChain : Sym → List Sym → Type 0
InChain x [] = ⊥
InChain x (b ∷ chain) = (x ≡ b) ⊎ InChain x chain

abbrev pub At : List (List Sym) → ℕ → Sym → Type 0
At table i x = InChain x (get_or table i [])

abbrev pub total : List (List Sym) → ℕ
total [] = 0
total (chain ∷ table) = length chain + total table

-- Each object stands in the chain of its hash value, which is that of its characters, and no
-- two have the same address or the same characters; `bcount` is the number of objects.
pub record IsValid (t : Interns) : Type 0 where
  pub sized : 1 ≤ blistlen t
  pub counted : total t.bucketlist ≡ t.bcount
  pub placed :
      (i : ℕ) (x : Sym)
      → At t.bucketlist i x
      → (x.hash ≡ hash x.str t.seed) × (x.hash % blistlen t ≡ i) × (x.address < t.fresh)
  pub addressed :
      (i j : ℕ) (x y : Sym)
      → At t.bucketlist i x
      → At t.bucketlist j y
      → x.address ≡ y.address
      → x ≡ y
  pub unique :
      (i : ℕ) (x y : Sym) → At t.bucketlist i x → At t.bucketlist i y → x.str ≡ y.str → x ≡ y

pub both : (a b : Bool) → (a && b) ≡ true → (a ≡ true) × (b ≡ true)
both true true h = (refl, refl)
both true false h = absurd (false≢true h)
both false b h = absurd (false≢true h)

pub same_bytes_sound : (a b : List ℕ) → same_bytes a b ≡ true → a ≡ b
unfolding same_bytes
same_bytes_sound [] [] h = refl
same_bytes_sound [] (y ∷ b) h = absurd (false≢true h)
same_bytes_sound (x ∷ a) [] h = absurd (false≢true h)
same_bytes_sound (x ∷ a) (y ∷ b) h =
    let (first, rest) = both (x == y) (same_bytes a b) h in
    ap₂ (λ u v. u ∷ v) (==→eq x y first) (same_bytes_sound a b rest)

pub same_bytes_refl : (a : List ℕ) → same_bytes a a ≡ true
unfolding same_bytes
same_bytes_refl [] = refl
same_bytes_refl (x ∷ a) = rw (same_bytes_refl a) (ground arith)

differs : (c : Sym) (s : List ℕ) → same_bytes c.str s ≡ false → c.str ≢ s
differs c s h e = false≢true (sym h ∙ ap (λ t. same_bytes c.str t) (sym e) ∙ same_bytes_refl c.str)

-- What the walk finds is in the chain, with the characters looked for; what it does not find is
-- not there.
pub chain_find-InChain :
    (chain : List Sym) (s : List ℕ) (b : Sym)
    → chain_find chain s ≡ some b
    → InChain b chain × (b.str ≡ s)
unfolding chain_find
chain_find-InChain [] s b h = absurd (none-ne-some b h)
chain_find-InChain (c ∷ chain) s b h =
    elim (if_split (λ r. r ≡ some b) (same_bytes c.str s) (some c) (chain_find chain s) h) [
      | inl (same, found) ↦
          let e = some-injective c b found in
          (inl (sym e), ap (λ (t : Sym). t.str) (sym e) ∙ same_bytes_sound c.str s same)
      | inr (differ, later) ↦
          let (there, same) = chain_find-InChain chain s b later in (inr there, same)
    ]

pub chain_find-eq-none :
    (chain : List Sym) (s : List ℕ)
    → chain_find chain s ≡ none
    → (x : Sym) → InChain x chain
    → x.str ≢ s
unfolding chain_find
chain_find-eq-none [] s h x k = absurd k
chain_find-eq-none (c ∷ chain) s h x k =
    elim (if_split (λ r. r ≡ none) (same_bytes c.str s) (some c) (chain_find chain s) h) [
      | inl (same, found) ↦ absurd (some-ne-none c found)
      | inr (differ, later) ↦ elim k [
        | inl here ↦ λ e. differs c s differ (ap (λ (t : Sym). t.str) (sym here) ∙ e)
        | inr there ↦ chain_find-eq-none chain s later x there
      ]
    ]

-- A write at a place of the table.
pub get_or-set_self {ℓ} :
    {A : Type ℓ} (xs : List A) (i : ℕ) (v d : A) → i < length xs → get_or (set xs i v) i d ≡ v
get_or-set_self [] i v d h = absurd (omega arith)
get_or-set_self (x ∷ xs) zero v d h = refl
get_or-set_self (x ∷ xs) (suc i) v d h = get_or-set_self xs i v d (omega arith)

pub get_or-set_ne {ℓ} :
    {A : Type ℓ} (xs : List A) (i j : ℕ) (v d : A) → i ≢ j → get_or (set xs i v) j d ≡ get_or xs j d
get_or-set_ne [] i j v d h = refl
get_or-set_ne (x ∷ xs) zero zero v d h = absurd (h refl)
get_or-set_ne (x ∷ xs) zero (suc j) v d h = refl
get_or-set_ne (x ∷ xs) (suc i) zero v d h = refl
get_or-set_ne (x ∷ xs) (suc i) (suc j) v d h = get_or-set_ne xs i j v d (λ e. h (ap suc e))

-- The table with `x` at the head of a chain.
abbrev pub push : List (List Sym) → ℕ → Sym → List (List Sym)
push table i x = set table i (x ∷ get_or table i [])

pub total-push :
    (table : List (List Sym)) (i : ℕ) (x : Sym)
    → i < length table
    → total (push table i x) ≡ suc (total table)
total-push [] i x h = absurd (omega arith)
total-push (chain ∷ table) zero x h = omega arith
total-push (chain ∷ table) (suc i) x h = omega (arith, total-push table i x (omega arith))

-- What stands in a table with one more object, in one chain and in the others.
At-push_self :
    (table : List (List Sym)) (i : ℕ) (x y : Sym)
    → i < length table
    → At (push table i x) i y ≡ (((y ≡ x) ⊎ At table i y))
At-push_self table i x y h =
    ap (λ chain. InChain y chain) (get_or-set_self table i (x ∷ get_or table i []) [] h)

At-push_ne :
    (table : List (List Sym)) (i j : ℕ) (x y : Sym) → j ≢ i → At (push table i x) j y ≡ At table j y
At-push_ne table i j x y h =
    ap (λ chain. InChain y chain)
      (get_or-set_ne table i j (x ∷ get_or table i []) [] (λ e. h (sym e)))

pub At-push :
    (table : List (List Sym)) (i j : ℕ) (x y : Sym)
    → i < length table
    → At (push table i x) j y
    → ((y ≡ x) × (j ≡ i)) ⊎ At table j y
At-push table i j x y h k = elim (Bool-cases (j == i)) [
  | inl e ↦
      let same = ==→eq j i e in
      elim (transport (At-push_self table i x y h) (subst (λ n. At (push table i x) n y) same k)) [
        | inl head ↦ inl (head, same)
        | inr later ↦ inr (subst (λ n. At table n y) (sym same) later)
      ]
  | inr e ↦ inr (transport (At-push_ne table i j x y (==-false→ne j i e)) k)
]

pub At-push_old :
    (table : List (List Sym)) (i j : ℕ) (x y : Sym)
    → i < length table
    → At table j y
    → At (push table i x) j y
At-push_old table i j x y h k = elim (Bool-cases (j == i)) [
  | inl e ↦
      let same = ==→eq j i e in
      subst (λ n. At (push table i x) n y) (sym same)
        (transport (sym (At-push_self table i x y h)) (inr (subst (λ n. At table n y) same k)))
  | inr e ↦ transport (sym (At-push_ne table i j x y (==-false→ne j i e))) k
]

pub At-push_new :
    (table : List (List Sym)) (i : ℕ) (x : Sym) → i < length table → At (push table i x) i x
At-push_new table i x h = transport (sym (At-push_self table i x x h)) (inl refl)

-- A table of empty chains.
pub empty-At : (n i : ℕ) (x : Sym) → ¬ At (replicate n []) i x
empty-At zero i x k = k
empty-At (suc n) zero x k = k
empty-At (suc n) (suc i) x k = empty-At n i x k

total-replicate : (n : ℕ) → total (replicate n []) ≡ 0
total-replicate zero = refl
total-replicate (suc n) = omega (arith, total-replicate n)

pub replicate-IsValid :
    (n seed : ℕ)
    → 1 ≤ n
    → IsValid (record { bucketlist = replicate n []; bcount = 0; seed = seed; fresh = 0 })
replicate-IsValid n seed h = record {
  sized = omega (arith, h, length-replicate {A = List Sym} n []);
  counted = total-replicate n;
  placed = λ i x k. absurd (empty-At n i x k);
  addressed = λ i j x y k l e. absurd (empty-At n i x k);
  unique = λ i x y k l e. absurd (empty-At n i x k);
}
