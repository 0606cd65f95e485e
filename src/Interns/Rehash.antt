-- ===== src/Interns/Rehash.antt =====
-- `rehash` moves every object to the chain of its hash value for the new length.
use mathlib.Core.Path.{subst}
use dummyscheme.Common.{
  some, zero, suc, [], ◌∷◌, ℕ, List, length, get_or, set, refl, inl, inr, ◌<◌, ◌≡◌, ◌≤◌, ◌^◌, ◌+◌,
  ◌%◌, arith, ◌⊎◌, length-set, ◌∙◌, ap, sym, ◌≢◌, Bool-cases, ◌==◌, ==→eq, ==-false→ne,
}
use dummyscheme.Interns.{Sym, rehash_index, rehash_chain, rehash}
use dummyscheme.Interns.Invariant.{
  At, InChain, push, At-push, At-push_new, At-push_old, total, total-push, get_or-set_ne,
}
use native.Mathlib.Nat.{mod-lt}

-- The hash value is not negative as an `int`.
abbrev pub IsSmall : Sym → Type 0
IsSmall x = x.hash < 2 ^ 31

-- The tables that one has the objects of the other and those of a chain, each in its place.
abbrev Moved : List Sym → ℕ → List (List Sym) → List (List Sym) → Type 0
Moved chain newl table result =
    (length result ≡ length table)
    × (total result ≡ total table + length chain)
    × ((j : ℕ) (y : Sym) → At result j y → (At table j y) ⊎ (InChain y chain × (y.hash % newl ≡ j)))
    × ((j : ℕ) (y : Sym) → At table j y → At result j y)
    × ((y : Sym) → InChain y chain → At result (y.hash % newl) y)

rehash_index-small :
    (x : Sym) (newl : ℕ) → IsSmall x → rehash_index x.hash newl ≡ some (x.hash % newl)
unfolding rehash_index
rehash_index-small x newl h = ground (arith, h)

At-lt : (table : List (List Sym)) (j : ℕ) (y : Sym) → At table j y → j < length table
At-lt [] j y k = absurd k
At-lt (chain ∷ table) zero y k = omega arith
At-lt (chain ∷ table) (suc j) y k = omega (arith, At-lt table j y k)

-- A chain taken out of the table.
At-clear :
    (table : List (List Sym)) (i j : ℕ) (y : Sym) → At (set table i []) j y → (j ≢ i) × At table j y
At-clear [] i j y k = absurd k
At-clear (chain ∷ table) zero zero y k = absurd k
At-clear (chain ∷ table) zero (suc j) y k = (omega arith, k)
At-clear (chain ∷ table) (suc i) zero y k = (omega arith, k)
At-clear (chain ∷ table) (suc i) (suc j) y k =
    let (other, there) = At-clear table i j y k in (omega (arith, other), there)

At-clear_old :
    (table : List (List Sym)) (i j : ℕ) (y : Sym) → j ≢ i → At table j y → At (set table i []) j y
At-clear_old table i j y other k =
    subst (InChain y) (sym (get_or-set_ne table i j [] [] (λ e. other (sym e)))) k

total-clear :
    (table : List (List Sym)) (i : ℕ)
    → total (set table i []) + length (get_or table i []) ≡ total table
total-clear [] i = omega arith
total-clear (chain ∷ table) zero = omega arith
total-clear (chain ∷ table) (suc i) = omega (arith, total-clear table i)

-- The objects of a table, each in the chain of its hash value for `newl`.
abbrev pub Ordered : ℕ → List (List Sym) → List (List Sym) → Type 0
Ordered newl table result =
    (length result ≡ length table)
    × (total result ≡ total table)
    × ((j : ℕ) (y : Sym) → At result j y → (y.hash % newl ≡ j) × ((n : ℕ) × At table n y))
    × ((j : ℕ) (y : Sym) → At table j y → At result (y.hash % newl) y)

module _ (newl : ℕ) (positive : 1 ≤ newl) where
  rehash_chain-Moved :
      (chain : List Sym) (table : List (List Sym))
      → newl ≤ length table
      → ((x : Sym) → InChain x chain → IsSmall x)
      → (result : List (List Sym)) × (rehash_chain chain table newl ≡ some result)
        × Moved chain newl table result
  unfolding rehash_chain
  rehash_chain-Moved [] table room small =
      (table, refl, (refl, omega arith, λ j y k. inl k, λ j y k. k, λ y k. absurd k))
  rehash_chain-Moved (b ∷ chain) table room small =
      let idx = b.hash % newl in
      let inside : idx < length table = omega (arith, mod-lt b.hash positive, room) in
      let size = length-set table idx (b ∷ get_or table idx []) in
      let (result, run, (len, sum, back, kept, put)) =
        rehash_chain-Moved chain (push table idx b) (omega (arith, size, room))
          (λ x k. small x (inr k)) in
      (
        result,
        rw (rehash_index-small b newl (small b (inl refl))) run,
        (
          len ∙ size,
          omega (arith, sum, total-push table idx b inside),
          λ j y k. elim (back j y k) [
            | inl at ↦ elim (At-push table idx j b y inside at) [
              | inl (same, there) ↦ inr (inl same, ap (λ (u : Sym). u.hash % newl) same ∙ sym there)
              | inr old ↦ inl old
            ]
            | inr (later, there) ↦ inr (inr later, there)
          ],
          λ j y k. kept j y (At-push_old table idx j b y inside k),
          λ y k. elim k [
            | inl same ↦
                subst (λ (u : Sym). At result (u.hash % newl) u) (sym same)
                  (kept idx b (At-push_new table idx b inside))
            | inr later ↦ put y later
          ],
        ),
      )

  -- From chain `i` on: those before it are in order.
  pub rehash-Moved :
      (left i : ℕ) (table : List (List Sym))
      → newl ≤ length table
      → i + left ≡ length table
      → ((j : ℕ) (x : Sym) → At table j x → IsSmall x)
      → ((j : ℕ) (x : Sym) → j < i → At table j x → x.hash % newl ≡ j)
      → (result : List (List Sym)) × (rehash i left table newl ≡ some result)
        × Ordered newl table result
  unfolding rehash
  rehash-Moved zero i table room reach small done =
      let home = λ (j : ℕ) (y : Sym) (k : At table j y).
        done j y (omega (arith, reach, At-lt table j y k)) k in
      (
        table,
        refl,
        (
          refl,
          refl,
          λ j y k. (home j y k, (j, k)),
          λ j y k. subst (λ n. At table n y) (sym (home j y k)) k,
        ),
      )
  rehash-Moved (suc left) i table room reach small done =
      let chain = get_or table i [] in
      let size = length-set table i [] in
      let (moved, run, (len, sum, back, kept, put)) =
        rehash_chain-Moved chain (set table i []) (omega (arith, size, room))
          (λ x k. small i x k) in
      let origin : (j : ℕ) (y : Sym) → At moved j y → (n : ℕ) × At table n y = λ j y k.
        elim (back j y k) [
          | inl old ↦ (j, (At-clear table i j y old).1)
          | inr (there, e) ↦ (i, there)
        ] in
      let sorted : (j : ℕ) (y : Sym) → j < suc i → At moved j y → y.hash % newl ≡ j = λ j y l k.
        elim (back j y k) [
          | inl old ↦
              let (other, there) = At-clear table i j y old in
              done j y (omega (arith, other, l)) there
          | inr (there, e) ↦ e
        ] in
      let (result, run2, (len2, sum2, back2, put2)) =
        rehash-Moved left (suc i) moved (omega (arith, len, size, room))
          (omega (arith, len, size, reach))
          (λ j y k. let (n, there) = origin j y k in small n y there) sorted in
      (
        result,
        rw run run2,
        (
          len2 ∙ len ∙ size,
          omega (arith, sum2, sum, total-clear table i),
          λ j y k. let (e, (n, there)) = back2 j y k in (e, origin n y there),
          λ j y k. elim (Bool-cases (j == i)) [
            | inl e ↦ put2 (y.hash % newl) y (put y (subst (λ n. At table n y) (==→eq j i e) k))
            | inr e ↦ put2 j y (kept j y (At-clear_old table i j y (==-false→ne j i e) k))
          ],
        ),
      )
