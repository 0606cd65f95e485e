-- ===== src/Strings/Compare.antt =====
-- scmstring.cpp: the comparisons of strings and the case of characters. `tolower`, `toupper` and
-- `strncmp` are those of the C library in its default locale.
use dummyscheme.Common.{
  zero, suc, [], ◌∷◌, true, false, ℕ, Bool, List, length, min, if◌then◌else◌, leb, ◌==◌, ◌&&◌, ◌+◌,
  ◌-◌,
}
use dummyscheme.Common.Int.{ℤ, pos, negsuc, sub_ℕ, ltb_ℤ}

unfoldable pub tolower : ℕ → ℕ
tolower c = if leb 65 c && leb c 90 then c + 32 else c

unfoldable pub toupper : ℕ → ℕ
toupper c = if leb 97 c && leb c 122 then c - 32 else c

-- The difference of the first two characters that differ, up to a 0 in both, and 0 for none.
unfoldable pub strncmp : List ℕ → List ℕ → ℕ → ℤ
strncmp p s zero = pos 0
strncmp [] s (suc n) = pos 0
strncmp (a ∷ p) [] (suc n) = pos 0
strncmp (a ∷ p) (b ∷ s) (suc n) =
    let rest = strncmp p s n in if a == b then (if a == 0 then pos 0 else rest) else sub_ℕ a b

abbrev pub is_zero : ℤ → Bool
is_zero (pos zero) = true
is_zero (pos (suc n)) = false
is_zero (negsuc n) = false

-- `if (!diff) diff = Sslen(pstr) - Sslen(pastr)`
unfoldable pub or_length : ℤ → List ℕ → List ℕ → ℤ
or_length diff p s = if is_zero diff then sub_ℕ (length p) (length s) else diff

unfoldable pub string_diff : List ℕ → List ℕ → ℤ
string_diff p s = or_length (strncmp p s (min (length p) (length s))) p s

-- `string<?` and its relatives, by the operator on `diff`; each argument is compared with the first.
unfoldable pub string_cmp : (ℤ → Bool) → List ℕ → List (List ℕ) → Bool
string_cmp op p [] = true
string_cmp op p (s ∷ args) =
    let rest = string_cmp op p args in if op (string_diff p s) then rest else false

-- The loop of `string-ci<?`, from a state of `diff` on: it breaks at a `diff` of 0.
unfoldable pub ci_diff : ℤ → List ℕ → List ℕ → ℤ
ci_diff diff [] s = diff
ci_diff diff (a ∷ p) [] = diff
ci_diff diff (a ∷ p) (b ∷ s) =
    let now = sub_ℕ (tolower a) (tolower b) in
    let rest = ci_diff now p s in if is_zero now then now else rest

unfoldable pub string_ci_cmp : (ℤ → Bool) → List ℕ → List (List ℕ) → Bool
string_ci_cmp op p [] = true
string_ci_cmp op p (s ∷ args) =
    let rest = string_ci_cmp op p args in
    if op (or_length (ci_diff (pos 0) p s) p s) then rest else false

abbrev pub less : ℤ → Bool
less diff = ltb_ℤ diff (pos 0)

unfoldable pub char_upcase : ℕ → ℕ
char_upcase c = toupper c

unfoldable pub char_downcase : ℕ → ℕ
char_downcase c = tolower c
