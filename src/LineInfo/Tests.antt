-- ===== src/LineInfo/Tests.antt =====
-- The theorem on line numbers at a concrete function.
use dummyscheme.Common.{some, [], ◌∷◌, ℕ, List, get_elem?, ◌≡◌, arith}
use dummyscheme.Common.Int.{ℤ, pos}
use dummyscheme.LineInfo.{LineTable, save_all, getline}
use dummyscheme.LineInfo.RoundTrip.{getline-save_all}

-- A line that is repeated, one that is far ahead, and one before.
abbrev saved : List ℤ
saved = pos 10 ∷ pos 10 ∷ pos 400 ∷ pos 398 ∷ []

getline-save_all_example :
    (t : LineTable) × (save_all
        (record { lines = []; abslines = []; defline = pos 9 })
        0
        (pos 9)
        saved
      ≡ some t)
    × ((pc : ℕ) (l : ℤ) → get_elem? saved pc ≡ some l → getline t pc ≡ l)
getline-save_all_example =
    getline-save_all (pos 9) saved (omega arith) (omega arith)
      (omega arith, (omega arith, (omega arith, (omega arith, tt))))
