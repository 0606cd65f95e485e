-- ===== src/Interns/Identity.antt =====
-- `intern` keeps the table valid, and gives one object for each string.
use native.Mathlib.Nat.{mod-lt}
use mathlib.Core.Path.{subst}
use dummyscheme.Common.{
  none, some, suc, [], ◌∷◌, ℕ, List, get_or, refl, inl, inr, ◌%◌, ◌<◌, ◌≡◌, ◌≢◌, arith, length-set,
  ◌∙◌, Option-cases, ap, sym, ◌↔◌,
}
use dummyscheme.Interns.{Sym, Interns, blistlen, hash, chain_find, insert, intern}
use dummyscheme.Interns.Invariant.{
  total-push, IsValid, At, At-push, At-push_new, At-push_old, chain_find-InChain,
  chain_find-eq-none,
}
use native.Mathlib.Nat.{mod-lt}

abbrev pub StandsIn : Interns → Sym → Type 0
StandsIn t x = (i : ℕ) × At t.bucketlist i x

module _ (t : Interns) (valid : IsValid t) (s : List ℕ) where
  abbrev place : ℕ
  place = hash s t.seed % blistlen t

  place-lt : place < blistlen t
  place-lt = mod-lt (hash s t.seed) valid.sized

  module _ (missing : chain_find (get_or t.bucketlist place []) s ≡ none) where
    abbrev made : Sym
    made = record { address = t.fresh; str = s; hash = hash s t.seed }

    abbrev after : Interns
    after = (insert t (hash s t.seed) place s).0

    -- An object of the table has another address and, in the chain, other characters.
    old_address : (j : ℕ) (y : Sym) → At t.bucketlist j y → y.address ≢ t.fresh
    old_address j y k e = absurd (omega (arith, (valid.placed j y k).2, e))

    insert-IsValid : IsValid after
    unfolding insert
    insert-IsValid = record {
      sized = omega (arith, valid.sized, length-set t.bucketlist place _);
      counted = total-push t.bucketlist place made place-lt ∙ ap suc valid.counted;
      placed = λ i x k. elim (At-push t.bucketlist place i made x place-lt k) [
        | inl (e, there) ↦
            rw (e, there)
              (
                refl,
                ap (λ n. hash s t.seed % n)
                    (length-set t.bucketlist place (made ∷ get_or t.bucketlist place [])),
                omega arith,
              )
        | inr old ↦
            let known = valid.placed i x old in
            (
              known.0,
              ap (λ n. x.hash % n)
                    (length-set t.bucketlist place (made ∷ get_or t.bucketlist place []))
                  ∙ known.1,
              omega (arith, known.2),
            )
      ];
      addressed = λ i j x y k l e. elim (At-push t.bucketlist place i made x place-lt k) [
        | inl (here, there) ↦ elim (At-push t.bucketlist place j made y place-lt l) [
          | inl (same, where2) ↦ here ∙ sym same
          | inr old ↦ absurd (old_address j y old (sym e ∙ ap (λ (u : Sym). u.address) here))
        ]
        | inr older ↦ elim (At-push t.bucketlist place j made y place-lt l) [
          | inl (same, where2) ↦
              absurd (old_address i x older (e ∙ ap (λ (u : Sym). u.address) same))
          | inr old ↦ valid.addressed i j x y older old e
        ]
      ];
      unique = λ i x y k l e. elim (At-push t.bucketlist place i made x place-lt k) [
        | inl (here, there) ↦ elim (At-push t.bucketlist place i made y place-lt l) [
          | inl (same, where2) ↦ here ∙ sym same
          | inr old ↦ absurd (
              chain_find-eq-none (get_or t.bucketlist place []) s missing y
                (subst (λ n. At t.bucketlist n y) there old) (sym e ∙ ap (λ (u : Sym). u.str) here))
        ]
        | inr older ↦ elim (At-push t.bucketlist place i made y place-lt l) [
          | inl (same, there) ↦ absurd (
              chain_find-eq-none (get_or t.bucketlist place []) s missing x
                (subst (λ n. At t.bucketlist n x) there older) (e ∙ ap (λ (u : Sym). u.str) same))
          | inr old ↦ valid.unique i x y older old e
        ]
      ];
    }

  intern-some :
      (b : Sym) → chain_find (get_or t.bucketlist place []) s ≡ some b → intern t s ≡ (t, b)
  unfolding intern
  intern-some b h = rw (intern, h) refl

  intern-none :
      chain_find (get_or t.bucketlist place []) s ≡ none
      → intern t s ≡ insert t (hash s t.seed) place s
  unfolding intern
  intern-none h = rw (intern, h) refl

  -- What a call gives: a valid table with the object for the string and all that it had before.
  abbrev pub Interned : Interns × Sym → Type 0
  Interned r =
      IsValid r.0 × StandsIn r.0 r.1 × (r.1.str ≡ s) × ((x : Sym) → StandsIn t x → StandsIn r.0 x)

  insert-Interned :
      chain_find (get_or t.bucketlist place []) s ≡ none
      → Interned (insert t (hash s t.seed) place s)
  unfolding insert
  insert-Interned missing = (
    insert-IsValid missing,
    (place, At-push_new t.bucketlist place (made missing) place-lt),
    refl,
    λ x there. (there.0, At-push_old t.bucketlist place there.0 (made missing) x place-lt there.1),
  )

  pub intern-Interned : Interned (intern t s)
  intern-Interned = elim (Option-cases (chain_find (get_or t.bucketlist place []) s)) [
    | inl missing ↦ subst Interned (sym (intern-none missing)) (insert-Interned missing)
    | inr (b, found) ↦
        let (there, same) = chain_find-InChain (get_or t.bucketlist place []) s b found in
        subst Interned (sym (intern-some b found)) (valid, (place, there), same, λ x k. k)
  ]

  -- A string that is there is found.
  pub intern-StandsIn : (x : Sym) → StandsIn t x → x.str ≡ s → intern t s ≡ (t, x)
  intern-StandsIn x (i, k) e =
      let known = valid.placed i x k in
      let here : At t.bucketlist place x =
        subst (λ n. At t.bucketlist n x)
          (sym known.1 ∙ ap (λ n. n % blistlen t) (known.0 ∙ ap (λ u. hash u t.seed) e)) k in
      elim (Option-cases (chain_find (get_or t.bucketlist place []) s)) [
        | inl missing ↦
            absurd (chain_find-eq-none (get_or t.bucketlist place []) s missing x here e)
        | inr (b, found) ↦
            let (there, same) = chain_find-InChain (get_or t.bucketlist place []) s b found in
            intern-some b found
            ∙ ap (λ u. (t, u)) (valid.unique place b x there here (same ∙ sym e))
      ]

-- `intern` keeps a table valid: each object in the chain of the hash value of its characters, no
-- two with one address or the same characters, and `bcount` the number of objects.
pub intern-IsValid : (t : Interns) (s : List ℕ) → IsValid t → IsValid (intern t s).0
intern-IsValid t s valid = (intern-Interned t valid s).0

-- Strings interned one after the other, and the object that the last call gives.
abbrev pub intern_all : Interns → List (List ℕ) → Interns
intern_all t [] = t
intern_all t (s ∷ ss) = intern_all (intern t s).0 ss

pub intern_all-keeps :
    (ss : List (List ℕ)) (t : Interns)
    → IsValid t
    → IsValid (intern_all t ss) × ((x : Sym) → StandsIn t x → StandsIn (intern_all t ss) x)
intern_all-keeps [] t valid = (valid, λ x k. k)
intern_all-keeps (s ∷ ss) t valid =
    let now = intern-Interned t valid s in
    let later = intern_all-keeps ss (intern t s).0 now.0 in (later.0, λ x k. later.1 x (now.3 x k))

-- For a valid table and two calls of `intern`, with calls for any other strings between them, the
-- objects have one address exactly if the characters are the same.
pub intern-identity :
    (t : Interns) (a b : List ℕ) (between : List (List ℕ))
    → IsValid t
    → (((intern t a).1.address ≡ (intern (intern_all (intern t a).0 between) b).1.address)
        ↔ (a ≡ b))
intern-identity t a b between valid =
    let first = intern-Interned t valid a in
    let x = (intern t a).1 in
    let u = intern_all (intern t a).0 between in
    let mid = intern_all-keeps between (intern t a).0 first.0 in
    let second = intern-Interned u mid.0 b in
    let y = (intern u b).1 in
    let kept = second.3 x (mid.1 x first.1) in
    (
      (λ e.
          sym first.2
          ∙ ap (λ (w : Sym). w.str) (second.0.addressed kept.0 second.1.0 x y kept.1 second.1.1 e)
          ∙ second.2),
      (λ e. sym (
          ap (λ (r : Interns × Sym). r.1.address)
            (intern-StandsIn u mid.0 b x (mid.1 x first.1) (first.2 ∙ e)))),
    )
