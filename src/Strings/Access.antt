-- ===== src/Strings/Access.antt =====
-- Parts and single characters of strings.
use mathlib.Core.List.{append-nil}
use dummyscheme.Common.{
  some, zero, suc, [], ◌∷◌, true, false, ℕ, List, length, set, take, drop, refl, ◌≤◌, ◌++◌, ◌≡◌,
  ◌<◌, All, get_or, ◌^◌, ◌+◌, ◌≢◌, map, ◌-◌, ap, arith, take-nil, ◌∙◌, sym, ltb, length-set,
  get_elem?-set_self, get_elem?-set_ne, Bool-cases, inl, inr, ◌&&◌, leb, min, take-of-length-le,
  drop-drop, get_or-drop,
}
use mathlib.Core.List.{append-nil}
use dummyscheme.Common.Int.{pos, negsuc, ◌+ℤ◌}
use dummyscheme.Bytevector.Access.{int32_lem, elem}
use dummyscheme.Strings.{
  substring, char_index, string_ref, string_set, string_append, string_char, string_byte,
  bytes_down, cons_down, from_end, int_tochar,
}
use dummyscheme.Strings.Build.{string_append-eq-concat, cons_down_lem}

substring_lem :
    (p : List ℕ) (start end : ℕ)
    → start ≤ end
    → end ≤ length p
    → length p < 2 ^ 31
    → substring p (pos start) (pos end) ≡ some (take (end - start) (drop start p))
unfolding substring
substring_lem p start end h l small =
    rw
      (
        int32_lem (pos start) (omega arith) (omega arith),
        int32_lem (pos end) (omega arith) (omega arith),
      )
      (ground arith)

take-drop : (a b : ℕ) (xs : List ℕ) → take a xs ++ take b (drop a xs) ≡ take (a + b) xs
take-drop zero b xs = ap (λ n. take n xs) (omega arith)
take-drop (suc a) b [] = take-nil b ∙ sym (take-nil (suc a + b))
take-drop (suc a) b (x ∷ xs) =
    ap (λ t. x ∷ t) (take-drop a b xs)
    ∙ ap (λ n. take n (x ∷ xs)) {x = suc (a + b)} {y = suc a + b} (omega arith)

-- For three places in order within a string shorter than 2 ^ 31, `substring` gives the two parts
-- between neighbours, and the part between the outer places, which is the two appended.
string_append-substring :
    (p : List ℕ) (start mid end : ℕ)
    → start ≤ mid
    → mid ≤ end
    → end ≤ length p
    → length p < 2 ^ 31
    → (left : List ℕ) × (right : List ℕ) × (substring p (pos start) (pos mid) ≡ some left)
      × (substring p (pos mid) (pos end) ≡ some right)
      × (substring p (pos start) (pos end) ≡ some (string_append (left ∷ right ∷ [])))
string_append-substring p start mid end h k l small = (
  take (mid - start) (drop start p),
  take (end - mid) (drop mid p),
  substring_lem p start mid h (omega arith) small,
  substring_lem p mid end k l small,
  rw (substring_lem p start end (omega arith) l small, string_append-eq-concat)
      (ap some (
        ap (λ n. take n (drop start p)) {y = (mid - start) + (end - mid)} (omega (arith, h, k))
        ∙ sym (take-drop (mid - start) (end - mid) (drop start p))
        ∙ ap (λ t. take (mid - start) (drop start p) ++ take (end - mid) t)
            (drop-drop start (mid - start) p ∙ ap (λ n. drop n p) (omega (arith, h)))
        ∙ ap (λ t. take (mid - start) (drop start p) ++ t)
            (sym (append-nil (take (end - mid) (drop mid p)))))),
)

-- A character written is read, and the others stay.
string_ref-string_set :
    (p : List ℕ) (i c : ℕ)
    → i < length p
    → (q : List ℕ) × (string_set false p (pos i) c ≡ some q)
      × (string_ref q (pos i) ≡ some c)
      × ((j : ℕ) → j ≢ i → string_ref q (pos j) ≡ string_ref p (pos j))
unfolding string_set string_ref char_index
string_ref-string_set p i c h = (
  set p i c,
  ground (arith, h),
  let (old, there) = elem p i h in
      let inside : ltb i (length (set p i c)) ≡ true = ground (arith, h, length-set p i c) in
      rw inside (get_elem?-set_self p i old c there),
  λ j other. elim (Bool-cases (ltb j (length p))) [
    | inl inside ↦ rw (length-set p i c, inside) (get_elem?-set_ne p i j c (λ e. other (sym e)))
    | inr outside ↦ rw (length-set p i c, outside) refl
  ],
)

int_tochar-pos : (b : ℕ) → b < 256 → int_tochar (pos b) ≡ some b
unfolding int_tochar
int_tochar-pos b h = rw (int32_lem (pos b) (omega arith) (omega arith)) (ground (arith, h))

string_char_lem :
    (b : ℕ) (bs : List ℕ)
    → All (λ c. c < 256) (b ∷ bs)
    → string_char (pos b) (map pos bs) ≡ some (b ∷ bs)
unfolding string_char
string_char_lem b [] h = rw (int_tochar-pos b h.0) refl
string_char_lem b (c ∷ bs) h = rw (int_tochar-pos b h.0, string_char_lem c bs h.1) refl

bytes_down-cons_down :
    (str : List ℕ) (i left : ℕ) (out : List ℕ)
    → bytes_down str i left out ≡ cons_down (drop i str) left out
unfolding bytes_down cons_down
bytes_down-cons_down str i zero out = refl
bytes_down-cons_down str i (suc left) out =
    rw (get_or-drop i left str) (bytes_down-cons_down str i left (get_or str (i + left) 0 ∷ out))

last_index : (n : ℕ) → pos (suc n) +ℤ negsuc 0 ≡ pos n
unfolding ◌+ℤ◌
last_index n = ground arith

-- For fewer than 2 ^ 31 bytes, at least one, `string-char` gives a string from which
-- `string-byte` from 0 to -1 gives the bytes.
string_byte-string_char :
    (b : ℕ) (bs : List ℕ)
    → All (λ c. c < 256) (b ∷ bs)
    → suc (length bs) < 2 ^ 31
    → (s : List ℕ) × (string_char (pos b) (map pos bs) ≡ some s)
      × (string_byte s (some (pos 0)) (some (negsuc 0)) ≡ some (b ∷ bs))
unfolding string_byte from_end
string_byte-string_char b bs h small = (
  b ∷ bs,
  string_char_lem b bs h,
  let last : pos (suc (length bs)) +ℤ negsuc 0 ≡ pos (length bs) = last_index (length bs) in
      let inside : (ltb 0 (suc (length bs) + 0) && leb 0 (length bs + 0)) ≡ true = ground arith in
      let count : min (length bs) (suc (length bs) - 1) + 1 - 0 ≡ suc (length bs) = omega arith in
      rw (string_byte, last, inside, count)
        (ap some (
          bytes_down-cons_down (b ∷ bs) 0 (suc (length bs)) []
          ∙ cons_down_lem (b ∷ bs) (suc (length bs)) [] (omega arith)
          ∙ append-nil (take (suc (length bs)) (b ∷ bs))
          ∙ take-of-length-le (suc (length bs)) (b ∷ bs) (omega arith))),
)
