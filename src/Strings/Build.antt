-- ===== src/Strings/Build.antt =====
-- The loops that build strings give the characters they are given.
use mathlib.Core.List.{append_assoc, append-nil}
use dummyscheme.Common.{
  zero, suc, [], ◌∷◌, ℕ, List, length, set, replicate, take, drop, refl, ◌++◌, ◌≤◌, ◌≡◌, ap, arith,
  ◌+◌, length-append, sym, length-replicate, ◌<◌, get_or, ◌∙◌, length-drop, take-of-length-le,
}
use dummyscheme.Strings.{
  write_all, cons_down, string_to_list, list_to_string, sum_length, copy_all, string_append,
}

set-append :
    (front rest : List ℕ) (r c : ℕ)
    → set (front ++ (r ∷ rest)) (length front) c ≡ front ++ (c ∷ rest)
set-append [] rest r c = refl
set-append (x ∷ front) rest r c = ap (λ t. x ∷ t) (set-append front rest r c)

-- A write of characters behind those written before.
write_all-append :
    (cs front rest : List ℕ) (i : ℕ)
    → i ≡ length front
    → length cs ≤ length rest
    → write_all (front ++ rest) i cs ≡ front ++ cs ++ drop (length cs) rest
unfolding write_all
write_all-append [] front rest i place h = ap (λ t. t ++ rest) (sym (append-nil front))
write_all-append (c ∷ cs) front [] i place h = absurd (omega arith)
write_all-append (c ∷ cs) front (r ∷ rest) i place h =
    let written : set (front ++ (r ∷ rest)) i c ≡ front ++ c ∷ [] ++ rest =
      rw (place, set-append front rest r c) (sym (append_assoc front (c ∷ []) rest)) in
    let next : suc i ≡ length (front ++ c ∷ []) =
      omega (arith, place, length-append front (c ∷ [])) in
    rw (written, write_all-append cs (front ++ c ∷ []) rest (suc i) next (omega arith))
      (ap (λ t. t ++ drop (length cs) rest) (append_assoc front (c ∷ []) cs))

drop-length-le : (n : ℕ) (xs : List ℕ) → length xs ≤ n → drop n xs ≡ []
drop-length-le zero [] h = refl
drop-length-le zero (x ∷ xs) h = absurd (omega arith)
drop-length-le (suc n) [] h = refl
drop-length-le (suc n) (x ∷ xs) h = drop-length-le n xs (omega arith)

write_all-fresh : (p : List ℕ) → write_all (replicate (length p) 0) 0 p ≡ p
write_all-fresh p =
    let size = length-replicate {A = ℕ} (length p) 0 in
    write_all-append p [] (replicate (length p) 0) 0 refl (omega (arith, size))
    ∙ ap (λ t. p ++ t) (drop-length-le (length p) (replicate (length p) 0) (omega (arith, size)))
    ∙ append-nil p

list_to_string_lem : (p : List ℕ) → list_to_string p ≡ p
unfolding list_to_string
list_to_string_lem p = write_all-fresh p

take-suc :
    (n : ℕ) (str : List ℕ) → n < length str → take (suc n) str ≡ take n str ++ get_or str n 0 ∷ []
take-suc n [] h = absurd (omega arith)
take-suc zero (x ∷ str) h = refl
take-suc (suc n) (x ∷ str) h = ap (λ t. x ∷ t) (take-suc n str (omega arith))

pub cons_down_lem :
    (str : List ℕ) (n : ℕ) (out : List ℕ) → n ≤ length str → cons_down str n out ≡ take n str ++ out
unfolding cons_down
cons_down_lem str zero out h = refl
cons_down_lem str (suc n) out h =
    cons_down_lem str n (get_or str n 0 ∷ out) (omega (arith, h))
    ∙ sym (append_assoc (take n str) (get_or str n 0 ∷ []) out)
    ∙ ap (λ t. t ++ out) (sym (take-suc n str (omega (arith, h))))

string_to_list_lem : (p : List ℕ) → string_to_list p ≡ p
unfolding string_to_list
string_to_list_lem p =
    cons_down_lem p (length p) [] (omega arith)
    ∙ append-nil (take (length p) p)
    ∙ take-of-length-le (length p) p (omega arith)

-- The characters of all strings, one string after the other.
abbrev pub concat : List (List ℕ) → List ℕ
concat [] = []
concat (s ∷ ss) = s ++ concat ss

sum_length_lem :
    (args : List (List ℕ)) (tlen : ℕ) → sum_length args tlen ≡ tlen + length (concat args)
unfolding sum_length
sum_length_lem [] tlen = omega arith
sum_length_lem (s ∷ args) tlen =
    omega (arith, sum_length_lem args (tlen + length s), length-append s (concat args))

copy_all_lem :
    (args : List (List ℕ)) (front rest : List ℕ) (tlen : ℕ)
    → tlen ≡ length front
    → length rest ≡ length (concat args)
    → copy_all (front ++ rest) tlen args ≡ front ++ concat args
unfolding copy_all
copy_all_lem [] front [] tlen place h = refl
copy_all_lem [] front (r ∷ rest) tlen place h = absurd (omega (arith, h))
copy_all_lem (s ∷ args) front rest tlen place h =
    let sizes = length-append s (concat args) in
    rw
      (
        write_all-append s front rest tlen place (omega (arith, h, sizes)),
        copy_all_lem args (front ++ s) (drop (length s) rest) (tlen + length s)
            (omega (arith, place, length-append front s))
            (omega (arith, h, sizes, length-drop (length s) rest)),
      )
      (append_assoc front s (concat args))

-- `string-append` gives the characters of its arguments in order.
pub string_append-eq-concat : (args : List (List ℕ)) → string_append args ≡ concat args
unfolding string_append
string_append-eq-concat args =
    copy_all_lem args [] (replicate (sum_length args 0) 0) 0 refl
      (omega (arith, length-replicate {A = ℕ} (sum_length args 0) 0, sum_length_lem args 0))
