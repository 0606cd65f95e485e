-- ===== src/ListOps.antt =====
-- vm.cpp: `SCM::reverselist`, `SCM::append` and `SCM::lastappend`, which change the cdrs of a list
-- in place, on the heap of pairs of ListLength.
pub mod Chain
mod Tests
pub mod Reverse
pub mod Append
use dummyscheme.Common.{
  none, some, zero, suc, [], ◌∷◌, true, false, ◌>>=◌, ◌>>◌, guard, ℕ, Bool, List, get_elem?, set,
  Option,
}
use dummyscheme.ListLength.{Value, Pair, null, pair, other, cdr_of, listp}

-- `pairref(x)->cdr(v)`, for the pair at `a`.
unfoldable pub set_cdr : List Pair → ℕ → Value → List Pair
set_cdr heap a v = elim (get_elem? heap a) [
  | some p ↦ set heap a (record { car = p.car; cdr = v })
  | none ↦ heap
]

-- The loop of `reverselist`: `a` goes on along the list, `b` is the list reversed so far. A value
-- that is no list, which the test before has ruled out, is an error here; `none` is also that
-- the fuel runs out.
unfoldable pub reverse_loop : ℕ → List Pair → Value → Value → Option (List Pair × Value)
reverse_loop fuel heap null b = some (heap, b)
reverse_loop fuel heap (other x) b = none
reverse_loop zero heap (pair a) b = none
reverse_loop (suc fuel) heap (pair a) b =
    let tmp = cdr_of heap a in reverse_loop fuel (set_cdr heap a b) tmp (pair a)

-- The heap and what the argument's slot holds at the end.
unfoldable pub reverselist : ℕ → List Pair → Value → Option (List Pair × Value)
reverselist fuel heap null = some (heap, null)
reverselist fuel heap (other x) = none
reverselist fuel heap (pair b) = do
  proper ← listp fuel heap (pair b)
  guard proper
  reverse_loop fuel (set_cdr heap b null) (cdr_of heap b) (pair b)

-- The walk to the last pair of a list that begins with the pair at `a`.
unfoldable pub last_pair : ℕ → List Pair → ℕ → Option ℕ
last_pair zero heap a = none
last_pair (suc fuel) heap a = elim (cdr_of heap a) [
  | null ↦ some a
  | pair b ↦ last_pair fuel heap b
  | other x ↦ some a
]

-- `append` and the write of `lastappend`: the slot of `h` gets `t` when it is empty, and else the
-- last pair of `h` does. The heap and what the slot holds at the end; the last pair, which the
-- code returns, is left out.
unfoldable pub append : ℕ → List Pair → Value → Value → Option (List Pair × Value)
append fuel heap null t = some (heap, t)
append fuel heap (other x) t = none
append fuel heap (pair a) t = do l ← last_pair fuel heap a; some (set_cdr heap l t, pair a)
