-- ===== src/ListAccess.antt =====
-- scmbasic.cpp: the procedures `list-ref`, `list-tail` and `reverse`, which read a list, on the
-- heap of pairs of ListLength. Indices are fixnums; the code converts each from 64 to 32 bits
-- (`int k = numi(p2)`).
pub mod Elements
pub mod Access
pub mod Reverse
mod Tests
use dummyscheme.Common.{
  none, some, zero, suc, [], ◌∷◌, ◌>>=◌, ◌>>◌, guard, ℕ, List, get_elem?, Option, ◌++◌, length,
}
use dummyscheme.Common.Int.{ℤ, pos, leb_ℤ, pos_part}
use dummyscheme.Bytevector.{int32}
use dummyscheme.ListLength.{Value, Pair, null, pair, other, cdr_of}

-- `Scar`. Every address has a pair, so that the default is not met.
unfoldable pub car_of : List Pair → ℕ → Value
car_of heap a = elim (get_elem? heap a) [ some p ↦ p.car | none ↦ null ]

-- `int k = numi(p2)`, which must be non-negative.
unfoldable pub index_of : ℤ → Option ℕ
index_of k = do guard (leb_ℤ (pos 0) (int32 k)); some (pos_part (int32 k))

-- `while (k-- > 0)`
unfoldable pub tail_loop : ℕ → List Pair → Value → Option Value
tail_loop zero heap v = some v
tail_loop (suc k) heap null = none
tail_loop (suc k) heap (pair a) = tail_loop k heap (cdr_of heap a)
tail_loop (suc k) heap (other x) = none

unfoldable pub list_tail : List Pair → Value → ℤ → Option Value
list_tail heap v k = do n ← index_of k; tail_loop n heap v

-- `AssertArg(vm, ispair(p1))` and `Scar(p1)`
unfoldable pub head_of : List Pair → Value → Option Value
head_of heap null = none
head_of heap (pair a) = some (car_of heap a)
head_of heap (other x) = none

unfoldable pub list_ref : List Pair → Value → ℤ → Option Value
list_ref heap v k = do n ← index_of k; w ← tail_loop n heap v; head_of heap w

-- `cons`: a new pair after the others.
unfoldable pub cons : List Pair → Value → Value → List Pair
cons heap h t = heap ++ record { car = h; cdr = t } ∷ []

-- The loop of `reverse`; `none` is a value that is no list, or that the fuel runs out.
unfoldable pub copy_loop : ℕ → List Pair → Value → Value → Option (List Pair × Value)
copy_loop fuel heap null rlist = some (heap, rlist)
copy_loop fuel heap (other x) rlist = none
copy_loop zero heap (pair a) rlist = none
copy_loop (suc fuel) heap (pair a) rlist =
    let after = cons heap (car_of heap a) rlist in
    copy_loop fuel after (cdr_of after a) (pair (length heap))

-- The heap after and the result.
unfoldable pub scm_stub_reverse : ℕ → List Pair → Value → Option (List Pair × Value)
scm_stub_reverse fuel heap p = copy_loop fuel heap p null
