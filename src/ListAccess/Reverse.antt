-- ===== src/ListAccess/Reverse.antt =====
-- `reverse` makes a new list.
use dummyscheme.Common.{
  some, [], ◌∷◌, ℕ, List, get_elem?, ◌≡◌, length, zero, suc, ◌≤◌, arith, refl, ◌∙◌, reverse,
}
use dummyscheme.ListLength.{Value, Pair, null, pair}
use dummyscheme.ListAccess.{cons, copy_loop, scm_stub_reverse, car_of}
use dummyscheme.ListAccess.Elements.{Elements, Extends, Elements-Extends, car_of_lem, cdr_of_lem}

cons-Extends : (heap : List Pair) (h t : Value) → Extends heap (cons heap h t)
unfolding cons
cons-Extends [] h t a p there = cc
cons-Extends (q ∷ heap) h t zero p there = there
cons-Extends (q ∷ heap) h t (suc a) p there = cons-Extends heap h t a p there

cons-new :
    (heap : List Pair) (h t : Value)
    → get_elem? (cons heap h t) (length heap) ≡ some (record { car = h; cdr = t })
unfolding cons
cons-new [] h t = refl
cons-new (q ∷ heap) h t = cons-new heap h t

-- The elements in reverse order, before others.
abbrev pub rev_onto : List Value → List Value → List Value
rev_onto [] done = done
rev_onto (x ∷ later) done = rev_onto later (x ∷ done)

copy_loop_lem :
    (xs : List Value) (fuel : ℕ) (heap : List Pair) (v rlist : Value) (done : List Value)
    → length xs ≤ fuel
    → Elements heap v xs
    → Elements heap rlist done
    → (after : List Pair) × (w : Value) × (copy_loop fuel heap v rlist ≡ some (after, w))
      × Elements after w (rev_onto xs done)
      × Extends heap after
unfolding copy_loop
copy_loop_lem [] fuel heap v rlist done enough l k = (heap, rlist, rw l refl, k, λ a p there. there)
copy_loop_lem (x ∷ xs) zero heap v rlist done enough l k = absurd (omega arith)
copy_loop_lem (x ∷ xs) (suc fuel) heap v rlist done enough (a, p, e, there, front, later) k =
    let h = car_of heap a in
    let new = cons heap h rlist in
    let more = cons-Extends heap h rlist in
    let head : Elements new (pair (length heap)) (x ∷ done) = (
      length heap,
      record { car = h; cdr = rlist },
      refl,
      cons-new heap h rlist,
      car_of_lem heap a p there ∙ front,
      Elements-Extends heap new rlist done more k,
    ) in
    let (after, w, run, list, kept) =
      copy_loop_lem xs fuel new p.cdr (pair (length heap)) (x ∷ done) (omega arith)
        (Elements-Extends heap new p.cdr xs more later) head in
    (
      after,
      w,
      rw (e, copy_loop, cdr_of_lem new a p (more a p there)) run,
      list,
      λ b q here. kept b q (more b q here),
    )

-- For a proper list, and at least as many rounds as it has elements, `reverse` succeeds and gives
-- a proper list of the elements in reverse order, and every pair there was before is still there,
-- unchanged.
pub scm_stub_reverse-reverse :
    (fuel : ℕ) (heap : List Pair) (v : Value) (xs : List Value)
    → length xs ≤ fuel
    → Elements heap v xs
    → (after : List Pair) × (w : Value) × (scm_stub_reverse fuel heap v ≡ some (after, w))
      × Elements after w (reverse xs)
      × ((a : ℕ) → (p : Pair) → get_elem? heap a ≡ some p → get_elem? after a ≡ some p)
unfolding scm_stub_reverse
scm_stub_reverse-reverse fuel heap v xs enough l =
    copy_loop_lem xs fuel heap v null [] enough l refl
