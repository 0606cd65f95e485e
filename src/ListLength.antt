-- ===== src/ListLength.antt =====
-- vm.cpp: `SCM::thlength` and `SCM::listp`, which walk a list by two pointers so that they also
-- end on a circular one. A heap is a list of pairs, at their addresses; a pointer is the slot of
-- the argument or the slot of a pair's cdr, as `Scdr` returns it.
pub mod Proper
mod Tests
use dummyscheme.Common.{
  ◌>>=◌, none, some, zero, suc, true, false, [], ◌∷◌, ℕ, Option, List, Bool, get_elem?, ◌==◌, ◌+◌,
  if◌then◌else◌,
}

-- What the two functions tell apart: the empty list, a pair, and any other value.
pub data Value : Type 0 where
  null : Value
  pair : ℕ → Value
  other : ℕ → Value

pub record Pair : Type 0 where
  pub car : Value
  pub cdr : Value

-- `none` is the argument's slot, `some a` the cdr of the pair at `a`.
abbrev pub Pointer : Type 0
Pointer = Option ℕ

-- The value in a slot; every address has a pair, so that the default is not met.
unfoldable pub cdr_of : List Pair → ℕ → Value
cdr_of heap a = elim (get_elem? heap a) [ some p ↦ p.cdr | none ↦ null ]

unfoldable pub slot : List Pair → Value → Pointer → Value
slot heap arg none = arg
slot heap arg (some a) = cdr_of heap a

unfoldable pub same_pointer : Pointer → Pointer → Bool
same_pointer none none = true
same_pointer none (some b) = false
same_pointer (some a) none = false
same_pointer (some a) (some b) = a == b

-- `Scdr` of a slot that holds a pair.
unfoldable pub next : List Pair → Value → Pointer → Pointer
next heap arg p = elim (slot heap arg p) [ null ↦ none | pair a ↦ some a | other x ↦ none ]

-- The result: a length, or -1.
pub data Found : Type 0 where
  len : ℕ → Found
  minus_one : Found

-- One look at the hare: `isnull(hare)`, then `!ispair(hare)`, or else on.
unfoldable pub look : Value → ℕ → Option Found → Option Found
look null n rest = some (len n)
look (pair a) n rest = rest
look (other x) n rest = some minus_one

-- The loop, with fuel; `none` is that it runs out.
unfoldable pub race : ℕ → List Pair → Value → ℕ → Pointer → Pointer → Option Found
race zero heap arg n tortoise hare = none
race (suc fuel) heap arg n tortoise hare =
    let hare1 = next heap arg hare in
    let hare2 = next heap arg hare1 in
    let tortoise1 = next heap arg tortoise in
    let rest = race fuel heap arg (n + 2) tortoise1 hare2 in
    look (slot heap arg hare) n (
      look (slot heap arg hare1) (n + 1)
        (if same_pointer tortoise1 hare2 then some minus_one else rest))

unfoldable pub thlength : ℕ → List Pair → Value → Option Found
thlength fuel heap arg = race fuel heap arg 0 none none

-- `thlength(a) >= 0`
unfoldable pub listp : ℕ → List Pair → Value → Option Bool
listp fuel heap arg = do
  r ← thlength fuel heap arg
  some (elim r [ len n ↦ true | minus_one ↦ false ])
