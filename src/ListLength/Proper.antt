-- ===== src/ListLength/Proper.antt =====
-- `thlength` of a proper list.
use mathlib.Core.Bool.{false≢true}
use dummyscheme.Common.{
  none, some, zero, suc, true, false, List, ◌≡◌, ℕ, ap, ◌<◌, ◌≤◌, refl, Bool-cases, ◌+◌, inl, arith,
  inr, ==→eq, ◌∙◌,
}
use dummyscheme.ListLength.{
  null, pair, other, len, same_pointer, Pair, Pointer, Value, next, race, cdr_of, slot, look,
  thlength,
}

-- The value begins a list of `n` pairs that ends in the empty list.
abbrev pub IsList : List Pair → Value → ℕ → Type 0
IsList heap null zero = Unit
IsList heap null (suc n) = ⊥
IsList heap (pair a) zero = ⊥
IsList heap (pair a) (suc n) = IsList heap (cdr_of heap a) n
IsList heap (other x) n = ⊥

IsList-unique : (heap : List Pair) (v : Value) (m n : ℕ) → IsList heap v m → IsList heap v n → m ≡ n
IsList-unique heap null zero zero p q = refl
IsList-unique heap null zero (suc n) p q = absurd q
IsList-unique heap null (suc m) n p q = absurd p
IsList-unique heap (pair a) zero n p q = absurd p
IsList-unique heap (pair a) (suc m) zero p q = absurd q
IsList-unique heap (other x) m n p q = absurd p
IsList-unique heap (pair a) (suc m) (suc n) p q =
    ap suc (IsList-unique heap (cdr_of heap a) m n p q)

same_pointer_sound : (p q : Pointer) → same_pointer p q ≡ true → p ≡ q
unfolding same_pointer
same_pointer_sound none none h = refl
same_pointer_sound none (some b) h = absurd (false≢true h)
same_pointer_sound (some a) none h = absurd (false≢true h)
same_pointer_sound (some a) (some b) h = ap (λ (t : ℕ). some t) (==→eq a b h)

IsList-null : (heap : List Pair) (v : Value) → IsList heap v 0 → v ≡ null
IsList-null heap null h = refl
IsList-null heap (pair a) h = absurd h
IsList-null heap (other x) h = absurd h

IsList-pair :
    (heap : List Pair) (v : Value) (n : ℕ)
    → IsList heap v (suc n)
    → (a : ℕ) × (v ≡ pair a) × IsList heap (cdr_of heap a) n
IsList-pair heap null n h = absurd h
IsList-pair heap (pair a) n h = (a, refl, h)
IsList-pair heap (other x) n h = absurd h

module _ (heap : List Pair) (arg : Value) where
  next-pair : (p : Pointer) (a : ℕ) → slot heap arg p ≡ pair a → next heap arg p ≡ some a
  unfolding next
  next-pair p a e = rw (next, e)

  advance :
      (p : Pointer) (n : ℕ)
      → IsList heap (slot heap arg p) (suc n)
      → (a : ℕ) × (slot heap arg p ≡ pair a)
        × (next heap arg p ≡ some a)
        × IsList heap (slot heap arg (some a)) n
  unfolding next slot
  advance p n h =
      let (a, here, rest) = IsList-pair heap (slot heap arg p) n h in
      (a, here, next-pair p a here, rest)

  differ_of_lengths :
      (p q : Pointer) (m n : ℕ)
      → IsList heap (slot heap arg p) m
      → IsList heap (slot heap arg q) n
      → n < m
      → same_pointer p q ≡ false
  differ_of_lengths p q m n hp hq less = elim (Bool-cases (same_pointer p q)) [
    | inl same ↦
        let e = same_pointer_sound p q same in
        absurd (omega (arith, IsList-unique heap (slot heap arg q) m n (rw (← e) hp) hq, less))
    | inr apart ↦ apart
  ]

  race_lem :
      (fuel n k m : ℕ) (tortoise hare : Pointer)
      → IsList heap (slot heap arg hare) k
      → IsList heap (slot heap arg tortoise) m
      → k ≤ m
      → k < fuel
      → race fuel heap arg n tortoise hare ≡ some (len (n + k))
  unfolding race look
  race_lem zero n k m tortoise hare hk hm le lt = absurd (omega (arith, lt))
  race_lem (suc fuel) n zero m tortoise hare hk hm le lt =
      rw (IsList-null heap (slot heap arg hare) hk, look) (ap (λ t. some (len t)) (omega arith))
  race_lem (suc fuel) n (suc zero) m tortoise hare hk hm le lt =
      let (a, here, on, rest) = advance hare 0 hk in
      rw (here, look, on, IsList-null heap (slot heap arg (some a)) rest)
  race_lem (suc fuel) n (suc (suc k)) zero tortoise hare hk hm le lt = absurd (omega (arith, le))
  race_lem (suc fuel) n (suc (suc k)) (suc m) tortoise hare hk hm le lt =
      let (a, here, on, rest) = advance hare (suc k) hk in
      let (b, here1, on1, rest1) = advance (some a) k rest in
      let (t, behind, slow, left) = advance tortoise m hm in
      let apart = differ_of_lengths (some t) (some b) m k left rest1 (omega arith) in
      rw (here, look, on, here1, on1, slow, apart)
        (race_lem fuel (n + 2) k m (some t) (some b) rest1 left (omega arith) (omega arith)
          ∙ ap (λ t. some (len t)) (omega arith))

  -- For a value that begins a proper list, and more rounds than it has pairs, `thlength` ends and
  -- gives the number of pairs.
  pub thlength_lem :
      (fuel n : ℕ) → IsList heap arg n → n < fuel → thlength fuel heap arg ≡ some (len n)
  unfolding thlength slot
  thlength_lem fuel n h lt =
      race_lem fuel 0 n n none none h h (omega arith) lt ∙ ap (λ t. some (len t)) (omega arith)
