-- ===== src/HashTable/Nodes/Insertkey.antt =====
-- `insertkey` puts a new key into a valid table with a free node.
use mathlib.Core.Path.{subst}
use dummyscheme.Common.{
  none, some, zero, suc, [], ◌∷◌, ℕ, List, length, ◌++◌, arith, inl, inr, ◌≡◌, ◌≢◌, refl, sym, ap,
  ◌∙◌, ◌≤◌, ◌<◌, true, false, Bool-cases, ==→eq, ==-false→ne, ◌==◌, get_or-set_self, get_or-set_ne,
  length-set, ap₂, set, Option-cases, Option, some_inj,
}
use dummyscheme.HashTable.Nodes.{
  TableNode, HashTableObj, Keys, node_at, getfreepos, fixfirstfree, mainposition, before_loop,
  insertkey, chain_key, move_node, empty_node,
}
use dummyscheme.HashTable.Nodes.Count.{used, used-set, one_key}
use dummyscheme.HashTable.Nodes.Chains.{
  In, Leads, Leads-Once, Leads-Used, length-Once, In-append_right,
}
use dummyscheme.HashTable.Nodes.Lookup.{IsValid, Placed, node_at-bound, mainposition-lt}
use dummyscheme.HashTable.Nodes.Insert.{
  Inserts, Absent, fill-Inserts, fill-Placed, fill-bare, key_eq,
}
use dummyscheme.HashTable.Nodes.Insert.Chained.{chain-Inserts, chain-Placed, chain-bare}
use dummyscheme.HashTable.Nodes.Insert.Moved.{
  move-Inserts, move-Placed, Once-append_right, move-bare,
}
use dummyscheme.HashTable.Nodes.Free.{Full, fixfirstfree-IsValid, getfreepos-Scans}

collides : (a b : ℕ) → a ≡ b → (a == b) ≡ true
collides a b e = ground arith

apart_test : (a b : ℕ) → a ≢ b → (a == b) ≡ false
apart_test a b ne = ground arith

-- The node before `mp` in the chain that the other key stands in.
before_loop_lem :
    {K V : Type 0} (home : K → ℕ) (nodes : List (TableNode K V)) (h mp : ℕ) (fuel o : ℕ)
    (l : List ℕ)
    → length l ≤ fuel
    → Leads home (node_at nodes) h (some o) l none
    → o ≢ mp
    → In mp l
    → (p : ℕ) × (front back : List ℕ) × (before_loop fuel nodes o mp ≡ some p)
      × (l ≡ front ++ p ∷ mp ∷ back)
unfolding before_loop
before_loop_lem home nodes h mp fuel o [] enough c away m = absurd m
before_loop_lem home nodes h mp zero o (j ∷ l) enough c away m = absurd (omega arith)
before_loop_lem home nodes h mp (suc fuel) o (j ∷ l) enough (e, used, c) away (inl first) =
    absurd (away (some_inj e ∙ sym first))
before_loop_lem home nodes h mp (suc fuel) o (j ∷ []) enough (e, used, c) away (inr m) = absurd m
before_loop_lem home nodes h mp (suc fuel) o (j ∷ n ∷ l) enough (e, used, c) away (inr m) =
    let here : (node_at nodes o).next ≡ some n =
      ap (λ t. (node_at nodes t).next) (some_inj e) ∙ c.0 in
    elim (Bool-cases (n == mp)) [
      | inl found ↦ (
        o,
        [],
        l,
        rw (before_loop, here, found) refl,
        ap₂ (λ (a b : ℕ). a ∷ b ∷ l) (sym (some_inj e)) (==→eq n mp found),
      )
      | inr later ↦
          let (p, front, back, run, cut) =
            before_loop_lem home nodes h mp fuel n (n ∷ l) (omega (arith, enough)) (refl, c.1, c.2)
              (==-false→ne n mp later) m in
          (
            p,
            o ∷ front,
            back,
            rw (before_loop, here, later) run,
            ap₂ (λ (a : ℕ) (b : List ℕ). a ∷ b) (sym (some_inj e)) cut,
          )
    ]

module _ {K V : Type 0} ⦃keys : Keys K⦄ where
  -- The result of inserting a key.
  pub record Inserted (t : HashTableObj K V) (k : K) (v : V) (after : HashTableObj K V)
      : Type 0 where
    pub valid : IsValid after
    pub inserts : Inserts k v (node_at t.node) (node_at after.node)
    pub count : used after.node ≡ suc (used t.node)
    pub lsizenode : after.lsizenode ≡ t.lsizenode
    pub array : after.array ≡ t.array

  -- `fixfirstfree` at the end of each case.
  finish :
      (t u : HashTableObj K V) (k : K) (v : V)
      → u.lsizenode ≡ t.lsizenode
      → u.array ≡ t.array
      → IsValid u
      → used u.node ≡ suc (used t.node)
      → Inserts k v (node_at t.node) (node_at u.node)
      → Inserted t k v (fixfirstfree u)
  finish t u k v ls ar valid more ins =
      let (fixed, (n_same, l_same, a_same)) = fixfirstfree-IsValid u valid in
      record {
        valid = fixed;
        inserts = subst (λ n. Inserts k v (node_at t.node) (node_at n)) (sym n_same) ins;
        count = ap (λ (n : List (TableNode K V)). used n) n_same ∙ more;
        lsizenode = l_same ∙ ls;
        array = a_same ∙ ar;
      }

  module _ (t : HashTableObj K V) (valid : IsValid t) (k : K) (v : V)
      (absent : Absent (node_at t.node) k) where
    inside : mainposition t.lsizenode k < length t.node
    inside = omega (arith, mainposition-lt t.lsizenode k, valid.size)

    -- The invariant after, from what each case shows.
    changed-IsValid :
        (nodes : List (TableNode K V)) (low : ℕ)
        → length nodes ≡ length t.node
        → Placed keys.keyeq (mainposition t.lsizenode) (node_at nodes)
        → low < length t.node
        → Full t.node (suc low) (length t.node)
        → ((j : ℕ) → (node_at nodes j).key ≡ none → (node_at t.node j).key ≡ none)
        → IsValid (record t { node = nodes; firstfree = low })
    changed-IsValid nodes low len places first full bare = record {
      size = len ∙ valid.size;
      places = places;
      first = omega (arith, first, len);
      filled = λ j above below gone. full j above (omega (arith, below, len)) (bare j gone);
    }

    fill_lem :
        (node_at t.node (mainposition t.lsizenode k)).key ≡ none
        → (after : HashTableObj K V) × (insertkey t k v ≡ some after) × Inserted t k v after
    unfolding insertkey
    fill_lem unused =
        let mp = mainposition t.lsizenode k in
        let entry : TableNode K V = record (node_at t.node mp) { key = some k; val = some v } in
        let u : HashTableObj K V = record t { node = set t.node mp entry } in
        let f = node_at t.node in
        let g = node_at u.node in
        let at_mp : g mp ≡ entry = get_or-set_self t.node mp entry empty_node inside in
        let others : (j : ℕ) → j ≢ mp → g j ≡ f j =
          λ j ne. get_or-set_ne t.node mp j entry empty_node (λ e. ne (sym e)) in
        let h = mainposition t.lsizenode in
        (
          fixfirstfree u,
          rw (insertkey, unused) refl,
          finish t u k v refl refl
              (changed-IsValid u.node t.firstfree (length-set t.node mp entry)
                (fill-Placed h f g k v valid.places absent unused at_mp others) valid.first
                valid.filled (fill-bare h f g k v valid.places absent unused at_mp others))
              (omega
                (arith, used-set t.node mp entry inside, ap (λ (o : Option K). one_key o) unused))
              (fill-Inserts h f g k v valid.places absent unused at_mp others),
        )

    module _ (stored : K) (held : (node_at t.node (mainposition t.lsizenode k)).key ≡ some stored)
        (free : ℕ) (got : getfreepos t ≡ some free) (free_in : free < length t.node)
        (unused : (node_at t.node free).key ≡ none)
        (full : Full t.node (suc free) (length t.node)) where
      apart : free ≢ mainposition t.lsizenode k
      apart e = let gone = ap (λ j. (node_at t.node j).key) (sym e) ∙ unused in cc

      chain_lem :
          mainposition t.lsizenode stored ≡ mainposition t.lsizenode k
          → (after : HashTableObj K V) × (insertkey t k v ≡ some after) × Inserted t k v after
      unfolding insertkey chain_key
      chain_lem same_home =
          let mp = mainposition t.lsizenode k in
          let f = node_at t.node in
          let link : TableNode K V = record (f free) { next = (f mp).next } in
          let linked = set t.node free link in
          let head : TableNode K V = record (node_at linked mp) { next = some free } in
          let hooked = set linked mp head in
          let entry : TableNode K V = record (node_at hooked free) { key = some k; val = some v } in
          let nodes = set hooked free entry in
          let u : HashTableObj K V = record t { node = nodes; firstfree = free } in
          let g = node_at nodes in
          let len : length nodes ≡ length t.node =
            length-set hooked free entry
            ∙ length-set linked mp head
            ∙ length-set t.node free link in
          let free_linked : node_at linked free ≡ link =
            get_or-set_self t.node free link empty_node free_in in
          let mp_linked : node_at linked mp ≡ f mp =
            get_or-set_ne t.node free mp link empty_node apart in
          let mp_hooked : node_at hooked mp ≡ head =
            get_or-set_self linked mp head empty_node
              (omega (arith, inside, length-set t.node free link)) in
          let free_hooked : node_at hooked free ≡ link =
            get_or-set_ne linked mp free head empty_node (λ e. apart (sym e)) ∙ free_linked in
          let at_free : g free ≡ record { key = some k; val = some v; next = (f mp).next } =
            get_or-set_self hooked free entry empty_node
              (omega (arith, free_in, length-set linked mp head, length-set t.node free link))
            ∙ ap (λ (n : TableNode K V). record n { key = some k; val = some v }) free_hooked in
          let at_mp : g mp ≡ record (f mp) { next = some free } =
            get_or-set_ne hooked free mp entry empty_node apart
            ∙ mp_hooked
            ∙ ap (λ (n : TableNode K V). record n { next = some free }) mp_linked in
          let others : (j : ℕ) → j ≢ free → j ≢ mp → g j ≡ f j = λ j nf nm.
            get_or-set_ne hooked free j entry empty_node (λ e. nf (sym e))
            ∙ get_or-set_ne linked mp j head empty_node (λ e. nm (sym e))
            ∙ get_or-set_ne t.node free j link empty_node (λ e. nf (sym e)) in
          let h = mainposition t.lsizenode in
          let collided : (mainposition t.lsizenode stored == mp) ≡ true = collides _ _ same_home in
          (
            fixfirstfree u,
            rw (insertkey, held, got, collided) refl,
            finish t u k v refl refl
                (changed-IsValid nodes free len
                  (chain-Placed h f g k v valid.places absent free unused stored held same_home
                    at_free at_mp others)
                  free_in full
                  (chain-bare h f g k v valid.places absent free unused stored held same_home
                    at_free at_mp others))
                (omega (
                  arith,
                  used-set t.node free link free_in,
                  used-set linked mp head (omega (arith, inside, length-set t.node free link)),
                  used-set hooked free entry (
                      omega
                        (arith, free_in, length-set linked mp head, length-set t.node free link)),
                  ap (λ (o : Option K). one_key o) (key_eq free_hooked ∙ unused),
                ))
                (chain-Inserts h f g k v valid.places absent free unused stored held same_home
                  at_free at_mp others),
          )

      move_lem :
          mainposition t.lsizenode stored ≢ mainposition t.lsizenode k
          → (after : HashTableObj K V) × (insertkey t k v ≡ some after) × Inserted t k v after
      unfolding insertkey move_node
      move_lem other_home =
          let mp = mainposition t.lsizenode k in
          let h = mainposition t.lsizenode in
          let f = node_at t.node in
          let (l, c, m) = valid.places.placed mp stored held in
          let few : length l ≤ length t.node =
            length-Once (length t.node) l (Leads-Once h f (h stored) (some (h stored)) l c)
              λ i among.
                let (o, used, at) = Leads-Used h f (h stored) (some (h stored)) l i none among c in
                node_at-bound t.node i o used in
          let (prev, front, back, run, cut) =
            before_loop_lem h t.node (h stored) mp (length t.node) (h stored) l few c other_home
              m in
          let chain = subst (λ w. Leads h f (h stored) (some (h stored)) w none) cut c in
          let (q, prev_used, prev_home) =
            Leads-Used h f (h stored) (some (h stored)) (front ++ prev ∷ mp ∷ back) prev none
              (In-append_right front (prev ∷ mp ∷ back) prev (inl refl)) chain in
          let prev_free : prev ≢ free = λ e. let gone = ap (λ j. (f j).key) e ∙ unused in cc in
          let prev_mp : prev ≢ mp = λ e.
            (Once-append_right front (prev ∷ mp ∷ back)
                (Leads-Once h f (h stored) (some (h stored)) (front ++ prev ∷ mp ∷ back) chain)).0
              (inl e) in
          let prev_in : prev < length t.node = node_at-bound t.node prev q prev_used in
          let link : TableNode K V = record (f prev) { next = some free } in
          let hooked = set t.node prev link in
          let mp_hooked : node_at hooked mp ≡ f mp =
            get_or-set_ne t.node prev mp link empty_node prev_mp in
          let moved = set hooked free (node_at hooked mp) in
          let cleared = set moved mp empty_node in
          let entry : TableNode K V = record (node_at cleared mp) { key = some k; val = some v } in
          let nodes = set cleared mp entry in
          let u : HashTableObj K V = record t { node = nodes; firstfree = free } in
          let g = node_at nodes in
          let len_moved : length moved ≡ length t.node =
            length-set hooked free (node_at hooked mp) ∙ length-set t.node prev link in
          let len : length nodes ≡ length t.node =
            length-set cleared mp entry ∙ length-set moved mp empty_node ∙ len_moved in
          let mp_cleared : node_at cleared mp ≡ empty_node =
            get_or-set_self moved mp empty_node empty_node (omega (arith, inside, len_moved)) in
          let at_mp : g mp ≡ record { key = some k; val = some v; next = none } =
            get_or-set_self cleared mp entry empty_node
              (omega (arith, inside, length-set moved mp empty_node, len_moved))
            ∙ ap (λ (n : TableNode K V). record n { key = some k; val = some v }) mp_cleared in
          let past_mp : (j : ℕ) → j ≢ mp → g j ≡ node_at moved j = λ j ne.
            get_or-set_ne cleared mp j entry empty_node (λ e. ne (sym e))
            ∙ get_or-set_ne moved mp j empty_node empty_node (λ e. ne (sym e)) in
          let at_free : g free ≡ f mp =
            past_mp free apart
            ∙ get_or-set_self hooked free (node_at hooked mp) empty_node
                (omega (arith, free_in, length-set t.node prev link))
            ∙ mp_hooked in
          let at_prev : g prev ≡ link =
            past_mp prev prev_mp
            ∙ get_or-set_ne hooked free prev (node_at hooked mp) empty_node (λ e. prev_free (sym e))
            ∙ get_or-set_self t.node prev link empty_node prev_in in
          let others : (j : ℕ) → j ≢ free → j ≢ mp → j ≢ prev → g j ≡ f j = λ j nf nm np.
            past_mp j nm
            ∙ get_or-set_ne hooked free j (node_at hooked mp) empty_node (λ e. nf (sym e))
            ∙ get_or-set_ne t.node prev j link empty_node (λ e. np (sym e)) in
          let differ : (mainposition t.lsizenode stored == mp) ≡ false =
            apart_test _ _ other_home in
          (
            fixfirstfree u,
            rw (insertkey, held, got, differ, run) refl,
            finish t u k v refl refl
                (changed-IsValid nodes free len
                  (move-Placed h f g k v valid.places absent free unused stored held other_home prev
                    front back chain at_prev at_free at_mp others)
                  free_in full
                  (move-bare h f g k v valid.places absent free unused stored held other_home prev
                    front back chain at_prev at_free at_mp others))
                (omega (
                  arith,
                  used-set t.node prev link prev_in,
                  used-set hooked free (node_at hooked mp)
                      (omega (arith, free_in, length-set t.node prev link)),
                  used-set moved mp empty_node (omega (arith, inside, len_moved)),
                  used-set cleared mp entry
                      (omega (arith, inside, length-set moved mp empty_node, len_moved)),
                  ap (λ (o : Option K). one_key o)
                      (key_eq (get_or-set_ne t.node prev free link empty_node prev_free) ∙ unused),
                  ap (λ (o : Option K). one_key o) (key_eq mp_hooked ∙ held),
                  ap (λ (o : Option K). one_key o)
                      (key_eq (
                          get_or-set_ne hooked free mp (node_at hooked mp) empty_node apart
                          ∙ mp_hooked)
                        ∙ held),
                  ap (λ (o : Option K). one_key o) (key_eq mp_cleared),
                ))
                (move-Inserts h f g k v valid.places absent free unused stored held other_home prev
                  front back chain at_prev at_free at_mp others),
          )

    -- For a valid hash part, a key that is not there, and a free main position or some free node,
    -- `insertkey` succeeds and keeps the invariant: each key stands once, in the chain of its
    -- main position, which ends, and no node after `firstfree` is free; the nodes after are those
    -- before, some in other places, and the new one.
    pub insertkey-Inserted :
        ((node_at t.node (mainposition t.lsizenode k)).key ≢ none → getfreepos t ≢ none)
        → (after : HashTableObj K V) × (insertkey t k v ≡ some after) × Inserted t k v after
    insertkey-Inserted room =
        elim (Option-cases (node_at t.node (mainposition t.lsizenode k)).key) [
          | inl unused ↦ fill_lem unused
          | inr (stored, held) ↦ elim (getfreepos-Scans t valid) [
            | inl (run, full) ↦
                absurd (room (λ gone. let e : some stored ≡ none = sym held ∙ gone in cc) run)
            | inr (free, got, free_in, unused, full) ↦
                elim (Bool-cases (mainposition t.lsizenode stored == mainposition t.lsizenode k)) [
                  | inl same ↦
                      chain_lem stored held free got free_in unused full
                        (==→eq (mainposition t.lsizenode stored) (mainposition t.lsizenode k) same)
                  | inr other ↦ move_lem stored held free got free_in unused full (
                      ==-false→ne (mainposition t.lsizenode stored) (mainposition t.lsizenode k)
                        other)
                ]
          ]
        ]
