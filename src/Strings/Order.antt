-- ===== src/Strings/Order.antt =====
-- The order of strings that `string<?` tests, and what `string-ci<?` tests instead.
use dummyscheme.Common.{
  suc, [], ◌∷◌, true, false, ℕ, Bool, List, length, min, refl, inl, inr, if◌then◌else◌, ◌&&◌, ◌≡◌,
  ◌≤◌, ◌==◌, All, ltb, arith, ap, Bool-cases, ◌-◌, ◌∙◌,
}
use dummyscheme.Common.Int.{ℤ, pos, negsuc, sub_ℕ}
use dummyscheme.Strings.Compare.{
  tolower, strncmp, or_length, string_cmp, ci_diff, string_ci_cmp, less, is_zero, string_diff,
}

-- The order of a dictionary, by the codes of the characters.
abbrev pub before : List ℕ → List ℕ → Bool
before [] [] = false
before [] (b ∷ s) = true
before (a ∷ p) [] = false
before (a ∷ p) (b ∷ s) = let rest = before p s in if a == b then rest else ltb a b

-- `p` is before each of the strings.
abbrev pub before_all : List ℕ → List (List ℕ) → Bool
before_all p [] = true
before_all p (s ∷ args) = let rest = before_all p args in before p s && rest

sub_ℕ-suc : (m n : ℕ) → sub_ℕ (suc m) (suc n) ≡ sub_ℕ m n
sub_ℕ-suc m n = ground arith

sub_ℕ-self : (n : ℕ) → sub_ℕ n n ≡ pos 0
sub_ℕ-self n = ground arith

if-and : (a b : Bool) → (if a then b else false) ≡ (a && b)
if-and true true = refl
if-and true false = refl
if-and false b = refl

if-eta : (b : Bool) → (if b then true else false) ≡ b
if-eta true = refl
if-eta false = refl

-- Two codes that differ decide, whatever comes after them.
first_other :
    (a b : ℕ) (later : ℤ)
    → (a == b) ≡ false
    → less (if is_zero (sub_ℕ a b) then later else sub_ℕ a b) ≡ ltb a b
first_other a b later other = elim (Bool-cases (ltb a b)) [
  | inl below ↦
      let e : sub_ℕ a b ≡ negsuc (b - a - 1) = ground (arith, below) in rw (e, below) (ground arith)
  | inr above ↦
      let e : sub_ℕ a b ≡ pos (suc (a - b - 1)) = ground (arith, other, above) in
      rw (e, above) (ground arith)
]

or_length-cons : (d : ℤ) (a b : ℕ) (p s : List ℕ) → or_length d (a ∷ p) (b ∷ s) ≡ or_length d p s
unfolding or_length
or_length-cons d a b p s = ap (λ t. if is_zero d then t else d) (sub_ℕ-suc (length p) (length s))

string_diff-same :
    (a b : ℕ) (p s : List ℕ)
    → 1 ≤ a
    → (a == b) ≡ true
    → string_diff (a ∷ p) (b ∷ s) ≡ string_diff p s
unfolding string_diff strncmp
string_diff-same a b p s h same =
    let shift : min (suc (length p)) (suc (length s)) ≡ suc (min (length p) (length s)) =
      omega arith in
    let kept : (a == 0) ≡ false = ground (arith, h) in
    rw (shift, same, kept) (or_length-cons (strncmp p s (min (length p) (length s))) a b p s)

string_diff-other :
    (a b : ℕ) (p s : List ℕ) → (a == b) ≡ false → less (string_diff (a ∷ p) (b ∷ s)) ≡ ltb a b
unfolding string_diff strncmp or_length
string_diff-other a b p s other =
    let shift : min (suc (length p)) (suc (length s)) ≡ suc (min (length p) (length s)) =
      omega arith in
    rw (shift, other) (first_other a b (sub_ℕ (suc (length p)) (suc (length s))) other)

less-string_diff : (p s : List ℕ) → All (λ c. 1 ≤ c) p → less (string_diff p s) ≡ before p s
unfolding string_diff or_length strncmp
less-string_diff [] [] h = refl
less-string_diff [] (b ∷ s) h =
    let none_left : min 0 (suc (length s)) ≡ 0 = omega arith in rw none_left (ground arith)
less-string_diff (a ∷ p) [] h =
    let none_left : min (suc (length p)) 0 ≡ 0 = omega arith in rw none_left (ground arith)
less-string_diff (a ∷ p) (b ∷ s) h = elim (Bool-cases (a == b)) [
  | inl same ↦ rw (string_diff-same a b p s h.0 same, same) (less-string_diff p s h.1)
  | inr other ↦ rw (string_diff-other a b p s other, other) refl
]

-- For a string without zeros, `string<?` tests that it is before each of the other strings in the
-- order of a dictionary.
pub string_cmp-before_all :
    (p : List ℕ) (args : List (List ℕ))
    → All (λ c. 1 ≤ c) p
    → string_cmp less p args ≡ before_all p args
unfolding string_cmp
string_cmp-before_all p [] h = refl
string_cmp-before_all p (s ∷ args) h =
    rw (string_cmp-before_all p args h, less-string_diff p s h)
      (if-and (before p s) (before_all p args))

-- For two strings whose first characters agree but for their case, `string-ci<?` and its
-- relatives compare the lengths, whatever the other characters.
pub string_ci_cmp-lengths :
    (op : ℤ → Bool) (a b : ℕ) (p s : List ℕ)
    → tolower a ≡ tolower b
    → string_ci_cmp op (a ∷ p) ((b ∷ s) ∷ []) ≡ op (sub_ℕ (length p) (length s))
unfolding string_ci_cmp ci_diff or_length
string_ci_cmp-lengths op a b p s h =
    let zero : sub_ℕ (tolower a) (tolower b) ≡ pos 0 =
      ap (λ t. sub_ℕ t (tolower b)) h ∙ sub_ℕ-self (tolower b) in
    rw (zero, or_length-cons (pos 0) a b p s) (if-eta (op (sub_ℕ (length p) (length s))))
