-- ===== src/HashTable/Access/Tests.antt =====
-- The theorems on the operations of a table at concrete ones.
use dummyscheme.Common.{
  none, some, [], ◌∷◌, ℕ, List, Option, ◌≡◌, refl, true, false, inl, arith, All, suc, inr, zero,
}
use dummyscheme.Common.Int.{pos, ℤ, negsuc}
use dummyscheme.HashTable.Nodes.{HashTableObj, Keys, node_at, insertkey, mainposition}
use dummyscheme.HashTable.Nodes.Insertkey.{Inserted, insertkey-Inserted}
use dummyscheme.HashTable.Access.{setnodevector, set_key, get, remove, live}
use dummyscheme.HashTable.Access.Slots.{IsTable}
use dummyscheme.HashTable.Access.Laws.{GivesFor, get-set_key, get-remove}
use dummyscheme.HashTable.Access.Traverse.{traverse}
use dummyscheme.HashTable.Access.Traverse.Complete.{traverse-get}
use dummyscheme.HashTable.Access.Entries.{Match}
use dummyscheme.HashTable.Access.Fresh.{
  setnodevector-IsValid, setnodevector-IsTable, setnodevector-room, setnodevector-bare,
}
use dummyscheme.Interns.{same_bytes, hash}
use dummyscheme.HashTable.Keys.{ValueT, keyeq, gethash}
use dummyscheme.HashTable.Keys.Laws.{KeyT, num_key, key_laws, gethash-keyeq}
use dummyscheme.HashTable.Nodes.Insert.{key_eq}
use dummyscheme.HashTable.Keys.Same.{IsCached}
use dummyscheme.Bytevector.{int32}

-- All objects have the same character.
abbrev chars : ℕ → List ℕ
chars a = 97 ∷ []

-- The hash of the object at 0 is not computed yet.
abbrev field : ℕ → ℤ
field zero = negsuc 0
field (suc a) = int32 (pos (hash (97 ∷ []) 7))

field-IsCached : IsCached chars field 7
field-IsCached zero = inl refl
field-IsCached (suc a) = inr refl

instance abbrev program_keys : Keys KeyT
program_keys = key_laws chars field 7 field-IsCached

-- A table as it is made.
abbrev made : HashTableObj KeyT ℕ
made = record { array = []; lsizenode = 0; node = []; firstfree = 0 }

-- Two free nodes.
abbrev blank : HashTableObj KeyT ℕ
blank = setnodevector made 1

blank-IsTable : IsTable blank
blank-IsTable = setnodevector-IsTable made 1

abbrev five : KeyT
five = num_key (pos 5)

no_keys :
    (i : ℕ) (k : KeyT) → (node_at blank.node i).key ≡ some k → program_keys.keyeq five k ≡ false
no_keys i k there = let e = key_eq (setnodevector-bare made 1 i) in cc

insertkey-Inserted_example :
    (after : HashTableObj KeyT ℕ) × (insertkey blank five 10 ≡ some after)
    × Inserted blank five 10 after
insertkey-Inserted_example =
    insertkey-Inserted blank (setnodevector-IsValid made 1) five 10 no_keys
      λ used. absurd (used (key_eq (setnodevector-bare made 1 (mainposition blank.lsizenode five))))

added :
    (after : HashTableObj KeyT ℕ) × (set_key 1 blank five 10 ≡ some after)
    × IsTable after
    × GivesFor blank five (some 10) after
added = get-set_key blank blank-IsTable five 0 10 λ absent. setnodevector-room made 1 five

-- A table with one key.
abbrev filled : HashTableObj KeyT ℕ
filled = added.0

filled-IsTable : IsTable filled
filled-IsTable = added.2

get-remove_example :
    (after : HashTableObj KeyT ℕ) × (w : Option ℕ) × (remove filled five ≡ some (after, live w))
    × (get filled five ≡ some w)
    × IsTable after
    × GivesFor filled five none after
get-remove_example = get-remove filled filled-IsTable five

-- A table with an element in the array part and two free nodes.
abbrev sample : HashTableObj KeyT ℕ
sample =
    setnodevector (record { array = some 7 ∷ none ∷ []; lsizenode = 0; node = []; firstfree = 0 }) 1

abbrev sample_entries : List (KeyT × ℕ)
sample_entries = (num_key (pos 1), 7) ∷ []

traverse-get_example :
    (traverse 5 sample none ≡ some sample_entries)
    × All (λ (e : KeyT × ℕ). get sample e.0 ≡ some (some e.1)) sample_entries
    × ((q : KeyT) (v : ℕ) → get sample q ≡ some (some v) → Match q sample_entries)
unfolding setnodevector key_laws
traverse-get_example =
    traverse-get sample
      (setnodevector-IsTable
        (record { array = some 7 ∷ none ∷ []; lsizenode = 0; node = []; firstfree = 0 }) 1)
      (omega arith)

-- Two strings of the same characters.
abbrev here : ValueT
here = record { t = 14; v = pos 3 }

abbrev there : ValueT
there = record { t = 14; v = pos 4 }

same : keyeq chars here there ≡ true
unfolding keyeq same_bytes
same = refl

gethash-keyeq_example : gethash chars field 7 here ≡ gethash chars field 7 there
gethash-keyeq_example = gethash-keyeq chars field 7 here there field-IsCached same
