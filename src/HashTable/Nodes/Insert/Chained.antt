-- ===== src/HashTable/Nodes/Insert/Chained.antt =====
-- A key whose main position is in use by a key of the same one: the new node is the second of the
-- chain.
use mathlib.Core.Path.{subst}
use dummyscheme.Common.{
  none, some, [], ◌∷◌, ℕ, List, inl, inr, ◌≡◌, ◌≢◌, refl, sym, ap, ◌∙◌, Bool-cases, ==→eq,
  ==-false→ne, ◌==◌, some_inj,
}
use dummyscheme.HashTable.Nodes.{TableNode, Keys}
use dummyscheme.HashTable.Nodes.Chains.{
  In, All-In, Leads, Leads-frame, Leads-Used, Leads-once, Leads-unique,
}
use dummyscheme.HashTable.Nodes.Lookup.{Placed}
use dummyscheme.HashTable.Nodes.Insert.{
  Inserts, Absent, Inserts-unique, Placed-frame, key_eq, val_eq, next_eq,
}

module _ {K V : Type 0} ⦃keys : Keys K⦄ (home : K → ℕ) (f g : ℕ → TableNode K V) (key : K) (v : V)
    (p : Placed keys.keyeq home f) (absent : Absent f key) (free : ℕ) (unused : (f free).key ≡ none)
    (stored : K) (held : (f (home key)).key ≡ some stored) (same_home : home stored ≡ home key)
    (at_free : g free ≡ record { key = some key; val = some v; next = (f (home key)).next })
    (at_mp : g (home key) ≡ record (f (home key)) { next = some free })
    (others : (j : ℕ) → j ≢ free → j ≢ home key → g j ≡ f j) where
  free-new : (g free).key ≡ some key
  free-new = key_eq at_free

  used-ne : (i : ℕ) (k : K) → (f i).key ≡ some k → i ≢ free
  used-ne i k there e = let gone : (f i).key ≡ none = ap (λ t. (f t).key) e ∙ unused in cc

  -- The keys and values of all nodes but the free one stay.
  same_entry : (j : ℕ) → j ≢ free → ((g j).key ≡ (f j).key) × ((g j).val ≡ (f j).val)
  same_entry j ne = elim (Bool-cases (j == home key)) [
    | inl same ↦
        let e = ==→eq j (home key) same in
        subst (λ t. ((g t).key ≡ (f t).key) × ((g t).val ≡ (f t).val)) (sym e)
          (key_eq at_mp, val_eq at_mp)
    | inr differ ↦ let e = others j ne (==-false→ne j (home key) differ) in (key_eq e, val_eq e)
  ]

  pub chain-Inserts : Inserts key v f g
  chain-Inserts = record {
    new = free;
    new_key = free-new;
    new_val = val_eq at_free;
    src = λ j. j;
    back = λ j k ne there. (sym (same_entry j ne).0 ∙ there, (same_entry j ne).1);
    injective = λ i j ni nj e. e;
    kept = λ i k there.
        let ne = used-ne i k there in (i, ne, (same_entry i ne).0 ∙ there, (same_entry i ne).1);
  }

  -- The chain of the main position, with the new node.
  longer :
      (l : List ℕ)
      → Leads home f (home key) (some (home key)) l none
      → (rest : List ℕ) × (l ≡ home key ∷ rest)
        × Leads home g (home key) (some (home key)) (home key ∷ free ∷ rest) none
  longer [] c = cc
  longer (j ∷ rest) (e, (k, there, at), c) =
      let first : j ≡ home key = sym (some_inj e) in
      let d = subst (λ t. Leads home f (home key) (f t).next rest none) first c in
      let whole : Leads home f (home key) (some (home key)) (home key ∷ rest) none =
        (refl, (stored, held, same_home), d) in
      (
        rest,
        ap (λ t. t ∷ rest) first,
        (
          refl,
          (stored, key_eq at_mp ∙ held, same_home),
          (
            next_eq at_mp,
            (key, free-new, refl),
            subst (λ t. Leads home g (home key) t rest none) (sym (next_eq at_free))
                (Leads-frame home f (home key) g (f (home key)).next rest none
                  (All-In (λ i. g i ≡ f i) rest
                    λ i m.
                      let (o, used, same) =
                        Leads-Used home f (home key) (f (home key)).next rest i none m d in
                      others i (used-ne i o used) λ e.
                        Leads-once home f (home key) (some (home key)) (home key) rest whole
                          (subst (λ t. In t rest) e m))
                  d),
          ),
        ),
      )

  through :
      (l m : List ℕ) (i : ℕ) (rest : List ℕ)
      → l ≡ home key ∷ rest
      → m ≡ l
      → In i m
      → In i (home key ∷ free ∷ rest)
  through l m i rest e d here = elim (subst (λ t. In i t) (d ∙ e) here) [
    | inl first ↦ inl first
    | inr later ↦ inr (inr later)
  ]

  pub chain-Placed : Placed keys.keyeq home g
  chain-Placed =
      let (l, c, m) = p.placed (home key) stored held in
      let (rest, cut, grown) = longer l (subst (λ h. Leads home f h (some h) l none) same_home c) in
      record {
        placed = λ i k there. elim (Bool-cases (i == free)) [
          | inl same ↦
              let e = ==→eq i free same in
              let is_key : some key ≡ some k = sym free-new ∙ ap (λ t. (g t).key) (sym e) ∙ there in
              subst (λ h. (l : List ℕ) × Leads home g h (some h) l none × In i l)
                (ap home (some_inj is_key)) (home key ∷ free ∷ rest, grown, inr (inl e))
          | inr differ ↦
              let ne = ==-false→ne i free differ in
              let before = sym (same_entry i ne).0 ∙ there in
              elim (Bool-cases (home k == home key)) [
                | inl same ↦
                    let e = ==→eq (home k) (home key) same in
                    let (own, d, here) = p.placed i k before in
                    let one =
                      Leads-unique home f (home stored) (home stored) (some (home stored)) own l
                        (subst (λ h. Leads home f h (some h) own none) (e ∙ sym same_home) d) c in
                    subst (λ h. (l : List ℕ) × Leads home g h (some h) l none × In i l) (sym e)
                      (home key ∷ free ∷ rest, grown, through l own i rest cut one here)
                | inr other ↦ Placed-frame home f g i k p before λ j o used at.
                    others j (used-ne j o used) λ e.
                      let is_stored : some stored ≡ some o =
                        sym held ∙ ap (λ t. (f t).key) (sym e) ∙ used in
                      ==-false→ne (home k) (home key) other
                        (sym at ∙ ap home (sym (some_inj is_stored)) ∙ same_home)
              ]
        ];
        bare = λ i gone. elim (Bool-cases (i == free)) [
          | inl same ↦
              let is_key : some key ≡ none =
                sym free-new ∙ ap (λ t. (g t).key) (sym (==→eq i free same)) ∙ gone in
              cc
          | inr differ ↦
              let ne = ==-false→ne i free differ in
              let before = sym (same_entry i ne).0 ∙ gone in
              let away : i ≢ home key = λ e.
                let is_stored : some stored ≡ none =
                  sym held ∙ ap (λ t. (f t).key) (sym e) ∙ before in
                cc in
              next_eq (others i ne away) ∙ p.bare i before
        ];
        unique = Inserts-unique key v f g chain-Inserts absent p.unique;
      }

  -- A node that is free after was so before.
  pub chain-bare : (j : ℕ) → (g j).key ≡ none → (f j).key ≡ none
  chain-bare j gone = elim (Bool-cases (j == free)) [
    | inl same ↦ ap (λ t. (f t).key) (==→eq j free same) ∙ unused
    | inr differ ↦ sym (same_entry j (==-false→ne j free differ)).0 ∙ gone
  ]
