-- ===== src/Strings/Tests.antt =====
-- The theorems on strings at concrete ones.
use dummyscheme.Common.{◌∷◌, ℕ, List, ◌≡◌, arith, refl, []}
use dummyscheme.Common.Int.{sub_ℕ}
use dummyscheme.Strings.Compare.{string_cmp, tolower, string_ci_cmp, less}
use dummyscheme.Strings.Order.{before_all, string_cmp-before_all, string_ci_cmp-lengths}

abbrev word : List ℕ
word = b's' ∷ b'c' ∷ b'h' ∷ b'e' ∷ b'm' ∷ b'e' ∷ []

string_cmp-before_all_example :
    string_cmp less word ((b't' ∷ []) ∷ word ∷ []) ≡ before_all word ((b't' ∷ []) ∷ word ∷ [])
string_cmp-before_all_example =
    string_cmp-before_all word ((b't' ∷ []) ∷ word ∷ [])
      (omega arith, (omega arith, (omega arith, (omega arith, (omega arith, (omega arith, tt))))))

same_letter : tolower b'a' ≡ tolower b'A'
unfolding tolower
same_letter = refl

string_ci_cmp-lengths_example :
    string_ci_cmp less (b'a' ∷ b'b' ∷ []) ((b'A' ∷ b'c' ∷ []) ∷ []) ≡ less (sub_ℕ 1 1)
string_ci_cmp-lengths_example =
    string_ci_cmp-lengths less b'a' b'A' (b'b' ∷ []) (b'c' ∷ []) same_letter
