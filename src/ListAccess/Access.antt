-- ===== src/ListAccess/Access.antt =====
-- `list-ref` and `list-tail` on a proper list.
use dummyscheme.Common.{
  some, [], ◌∷◌, ℕ, List, get_elem?, ◌≡◌, length, zero, suc, ◌<◌, ◌≤◌, ◌^◌, arith, refl, ◌∙◌, ap,
  ◌>>=◌, drop,
}
use dummyscheme.Common.Int.{pos}
use dummyscheme.Bytevector.Access.{int32-pos}
use dummyscheme.ListLength.{Value, Pair}
use dummyscheme.ListAccess.{index_of, tail_loop, list_tail, list_ref, head_of}
use dummyscheme.ListAccess.Elements.{Elements, car_of_lem, cdr_of_lem}

index_of-pos : (k : ℕ) → k < 2 ^ 31 → index_of (pos k) ≡ some k
unfolding index_of
index_of-pos k s = rw (int32-pos k s) (ground arith)

tail_loop_lem :
    (k : ℕ) (heap : List Pair) (v : Value) (xs : List Value)
    → k ≤ length xs
    → Elements heap v xs
    → (w : Value) × (tail_loop k heap v ≡ some w) × Elements heap w (drop k xs)
unfolding tail_loop
tail_loop_lem zero heap v xs h l = (v, refl, l)
tail_loop_lem (suc k) heap v [] h l = absurd (omega arith)
tail_loop_lem (suc k) heap v (x ∷ xs) h (a, p, e, there, front, later) =
    let (w, run, rest) = tail_loop_lem k heap p.cdr xs (omega arith) later in
    (w, rw (e, tail_loop, cdr_of_lem heap a p there) run, rest)

-- For a proper list and an index below 2 ^ 31 and of at most its length, `list-tail` succeeds and
-- gives a proper list of the elements from the index on.
list_tail-drop :
    (heap : List Pair) (v : Value) (xs : List Value) (k : ℕ)
    → k ≤ length xs
    → k < 2 ^ 31
    → Elements heap v xs
    → (w : Value) × (list_tail heap v (pos k) ≡ some w) × Elements heap w (drop k xs)
unfolding list_tail
list_tail-drop heap v xs k h s l =
    let (w, run, rest) = tail_loop_lem k heap v xs h l in
    (w, rw (list_tail, index_of-pos k s) run, rest)

ref_loop_lem :
    (k : ℕ) (heap : List Pair) (v : Value) (xs : List Value)
    → Elements heap v xs
    → (tail_loop k heap v >>= λ w. head_of heap w) ≡ get_elem? xs k
unfolding tail_loop head_of
ref_loop_lem zero heap v [] l = rw l refl
ref_loop_lem (suc k) heap v [] l = rw l refl
ref_loop_lem zero heap v (x ∷ xs) (a, p, e, there, front, later) =
    rw e (ap (λ (t : Value). some t) (car_of_lem heap a p there ∙ front))
ref_loop_lem (suc k) heap v (x ∷ xs) (a, p, e, there, front, later) =
    rw (e, cdr_of_lem heap a p there) (ref_loop_lem k heap p.cdr xs later)

-- For a proper list and an index below 2 ^ 31, `list-ref` gives the element at the index, or an
-- error when there is none.
list_ref-eq-get_elem? :
    (heap : List Pair) (v : Value) (xs : List Value) (k : ℕ)
    → k < 2 ^ 31
    → Elements heap v xs
    → list_ref heap v (pos k) ≡ get_elem? xs k
unfolding list_ref
list_ref-eq-get_elem? heap v xs k s l = rw (list_ref, index_of-pos k s) (ref_loop_lem k heap v xs l)
