-- ===== src/Interns/Tests.antt =====
-- The theorems on interned strings at concrete tables.
use dummyscheme.Common.{
  none, some, [], ◌∷◌, ℕ, List, replicate, ◌≡◌, arith, ◌<◌, ◌↔◌, ◌⊎◌, inl, ap, inr,
}
use dummyscheme.Interns.{Interns, init, intern, check_resize, blistlen, Sym}
use dummyscheme.Interns.Invariant.{IsValid, replicate-IsValid, empty-At, push, At, At-push}
use dummyscheme.Interns.Identity.{intern-IsValid, intern_all, intern-identity}
use dummyscheme.Interns.Resize.{check_resize-eq-none, check_resize-Shrunk, Shrunk}
use dummyscheme.Interns.Rehash.{IsSmall}

abbrev word_if : List ℕ
word_if = b'i' ∷ b'f' ∷ []

abbrev word_f : List ℕ
word_f = b'f' ∷ []

intern-IsValid_example : IsValid (intern (init 7) word_if).0
intern-IsValid_example = intern-IsValid (init 7) word_if (replicate-IsValid 128 7 (omega arith))

intern-identity_example :
    ((intern (init 7) word_if).1.address
      ≡ (intern (intern_all (intern (init 7) word_if).0 (word_f ∷ [])) word_f).1.address)
    ↔ (word_if ≡ word_f)
intern-identity_example =
    intern-identity (init 7) word_if word_f (word_f ∷ []) (replicate-IsValid 128 7 (omega arith))

-- Its chain is cleared.
abbrev far : Sym
far = record { address = 0; str = b'x' ∷ []; hash = 100 }

abbrev sparse : Interns
sparse = record { bucketlist = push (replicate 512 []) 100 far; bcount = 1; seed = 7; fresh = 1 }

sparse-IsSmall : (i : ℕ) (x : Sym) → At sparse.bucketlist i x → IsSmall x
sparse-IsSmall i x k = elim (At-push (replicate 512 []) 100 i far x (omega arith) k) [
  | inl (same, place) ↦ omega (arith, ap (λ (y : Sym). y.hash) same)
  | inr other ↦ absurd (empty-At 512 i x other)
]

abbrev full : Interns
full = record {
  bucketlist = (record { address = 0; str = b'x' ∷ []; hash = 5 } ∷ []) ∷ [];
  bcount = 1;
  seed = 7;
  fresh = 1;
}

check_resize-Shrunk_example :
    (u : Interns) × (check_resize 512 sparse ≡ some u)
    × (u.bcount ≡ 1)
    × (u.bcount < blistlen u)
    × ((u ≡ sparse) ⊎ Shrunk sparse u)
check_resize-Shrunk_example =
    check_resize-Shrunk sparse 512 sparse-IsSmall (omega arith) (omega arith)

check_resize-eq-none_example : check_resize 1000 full ≡ none
check_resize-eq-none_example = check_resize-eq-none full 1000 (omega arith)
