-- ===== src/HashTable/Access/Laws.antt =====
-- `get` after `set` and after `remove`.
use dummyscheme.Common.{none, some, ℕ, Option, ◌≡◌, ◌≢◌, sym, ap, ◌∙◌, if◌then◌else◌, suc, some_inj}
use dummyscheme.HashTable.Nodes.{HashTableObj, Keys}
use dummyscheme.HashTable.Access.{live, rawget, get, set_key, room_for, remove}
use dummyscheme.HashTable.Access.Slots.{IsTable, Maps, get-Maps, Maps-unique}
use dummyscheme.HashTable.Access.Writes.{Writes}
use dummyscheme.HashTable.Access.Insertion.{set_key-Writes}
use dummyscheme.HashTable.Access.Removal.{remove-Writes}

module _ {K V : Type 0} ⦃keys : Keys K⦄ where
  -- Every key gives what it gave, and those equal to `k` what was written.
  abbrev pub GivesFor : HashTableObj K V → K → Option V → HashTableObj K V → Type 0
  GivesFor t k x after =
      (q : K) (w : Option V)
      → get t q ≡ some w
      → get after q ≡ some (if keys.keyeq q k then x else w)

module _ {K V : Type 0} ⦃keys : Keys K⦄ (t : HashTableObj K V) (valid : IsTable t) (k : K) where
  pub Maps-GivesFor :
      (x : Option V) (after : HashTableObj K V)
      → IsTable after
      → ((q : K) (w : Option V) → Maps t q w → Maps after q (if keys.keyeq q k then x else w))
      → GivesFor t k x after
  Maps-GivesFor x after table maps q w given =
      let (u, run, reads) = get-Maps t q valid.hash in
      let (r, ran, found) = get-Maps after q table.hash in
      let same : u ≡ w = some_inj (sym run ∙ given) in
      let changed = maps q u reads in
      ran
      ∙ ap (λ (m : Option V). some m)
          (Maps-unique after q r (if keys.keyeq q k then x else u) table found changed
            ∙ ap (λ (m : Option V). if keys.keyeq q k then x else m) same)

  Writes-GivesFor :
      (x : Option V) (after : HashTableObj K V) → Writes t k x after → GivesFor t k x after
  Writes-GivesFor x after writes = Maps-GivesFor x after writes.table writes.maps

  -- The case without a rehash.
  pub get-set_key :
      (fuel : ℕ) (v : V)
      → (rawget t k ≡ some none → room_for t k ≢ none)
      → (after : HashTableObj K V) × (set_key (suc fuel) t k v ≡ some after)
        × IsTable after
        × GivesFor t k (some v) after
  get-set_key fuel v room =
      let (after, run, writes) = set_key-Writes t valid k fuel v room in
      (after, run, writes.table, Writes-GivesFor (some v) after writes)

  -- For a valid table, `remove` ends and gives whether the key was there, the table stays valid,
  -- and `get` then gives nothing for every key equal to it and for every other key what it gave
  -- before. The keys are those of the interface `Keys`: `keyeq` is an equivalence that the hash
  -- respects, and an integer key fits an `int`; greater fixnums are left out.
  pub get-remove :
      (after : HashTableObj K V) × (w : Option V) × (remove t k ≡ some (after, live w))
      × (get t k ≡ some w)
      × IsTable after
      × GivesFor t k none after
  get-remove =
      let (after, w, run, was, writes) = remove-Writes t valid k in
      (after, w, run, was, writes.table, Writes-GivesFor none after writes)
