-- ===== src/HashTable/Nodes/Insert/Moved.antt =====
-- A key whose main position is in use by a key of another one: that node moves to the free one,
-- and the node before it in its chain points there.
use mathlib.Core.Path.{subst}
use dummyscheme.Common.{
  none, some, [], ◌∷◌, ℕ, List, ◌++◌, arith, inl, inr, ◌≡◌, ◌≢◌, refl, sym, ap, ◌∙◌, Bool-cases,
  ==→eq, ==-false→ne, ◌==◌, if◌then◌else◌, some_inj,
}
use dummyscheme.HashTable.Nodes.{TableNode, Keys}
use dummyscheme.HashTable.Nodes.Chains.{
  In, All-In, Leads, Used, Once, Leads-frame, Leads-Used, Leads-unique, Leads-append, Leads-cut,
  Leads-Once, In-append_right, In-append_left, In-append_cases,
}
use dummyscheme.HashTable.Nodes.Lookup.{Placed}
use dummyscheme.HashTable.Nodes.Insert.{
  Inserts, Absent, Inserts-unique, Placed-frame, key_eq, val_eq, next_eq,
}

-- In a list without repetition, an element of the front is not one of the rest.
front_ne : (front rest : List ℕ) (i j : ℕ) → Once (front ++ rest) → In i front → In j rest → i ≢ j
front_ne [] rest i j once m n e = absurd m
front_ne (k ∷ front) rest i j (fresh, once) (inl first) n e =
    fresh (In-append_right front rest k (subst (λ t. In t rest) (sym e ∙ first) n))
front_ne (k ∷ front) rest i j (fresh, once) (inr later) n e = front_ne front rest i j once later n e

pub Once-append_right : (front rest : List ℕ) → Once (front ++ rest) → Once rest
Once-append_right [] rest once = once
Once-append_right (k ∷ front) rest once = Once-append_right front rest once.1

module _ {K V : Type 0} ⦃keys : Keys K⦄ (home : K → ℕ) (f g : ℕ → TableNode K V) (key : K) (v : V)
    (p : Placed keys.keyeq home f) (absent : Absent f key) (free : ℕ) (unused : (f free).key ≡ none)
    (stored : K) (held : (f (home key)).key ≡ some stored) (other_home : home stored ≢ home key)
    (prev : ℕ) (front back : List ℕ)
    (chain : Leads home f (home stored) (some (home stored)) (front ++ prev ∷ home key ∷ back) none)
    (at_prev : g prev ≡ record (f prev) { next = some free }) (at_free : g free ≡ f (home key))
    (at_mp : g (home key) ≡ record { key = some key; val = some v; next = none })
    (others : (j : ℕ) → j ≢ free → j ≢ home key → j ≢ prev → g j ≡ f j) where
  mp-new : (g (home key)).key ≡ some key
  mp-new = key_eq at_mp

  used-ne : (i : ℕ) (k : K) → (f i).key ≡ some k → i ≢ free
  used-ne i k there e = let gone : (f i).key ≡ none = ap (λ t. (f t).key) e ∙ unused in cc

  mp-ne_free : home key ≢ free
  mp-ne_free = used-ne (home key) stored held

  -- The keys and values of the other nodes stay.
  same_entry : (j : ℕ) → j ≢ free → j ≢ home key → ((g j).key ≡ (f j).key) × ((g j).val ≡ (f j).val)
  same_entry j ne away = elim (Bool-cases (j == prev)) [
    | inl same ↦
        let e = ==→eq j prev same in
        subst (λ t. ((g t).key ≡ (f t).key) × ((g t).val ≡ (f t).val)) (sym e)
          (key_eq at_prev, val_eq at_prev)
    | inr differ ↦ let e = others j ne away (==-false→ne j prev differ) in (key_eq e, val_eq e)
  ]

  -- Where a node was before.
  source : ℕ → ℕ
  source j = if j == free then home key else j

  source-free : (j : ℕ) → j ≡ free → source j ≡ home key
  unfolding source
  source-free j e = ground (arith, e)

  source-ne : (j : ℕ) → j ≢ free → source j ≡ j
  unfolding source
  source-ne j ne = elim (Bool-cases (j == free)) [
    | inl same ↦ absurd (ne (==→eq j free same))
    | inr differ ↦ rw differ refl
  ]

  entry_back :
      (j : ℕ) → j ≢ home key → ((g j).key ≡ (f (source j)).key) × ((g j).val ≡ (f (source j)).val)
  entry_back j away = elim (Bool-cases (j == free)) [
    | inl same ↦
        let e = ==→eq j free same in
        subst (λ t. ((g j).key ≡ (f t).key) × ((g j).val ≡ (f t).val)) (sym (source-free j e))
          (ap (λ t. (g t).key) e ∙ key_eq at_free, ap (λ t. (g t).val) e ∙ val_eq at_free)
    | inr differ ↦
        let ne = ==-false→ne j free differ in
        subst (λ t. ((g j).key ≡ (f t).key) × ((g j).val ≡ (f t).val)) (sym (source-ne j ne))
          (same_entry j ne away)
  ]

  source-injective : (i j : ℕ) → i ≢ home key → j ≢ home key → source i ≡ source j → i ≡ j
  source-injective i j ni nj e = elim (Bool-cases (i == free)) [
    | inl si ↦ elim (Bool-cases (j == free)) [
      | inl sj ↦ ==→eq i free si ∙ sym (==→eq j free sj)
      | inr dj ↦
          absurd (
            nj
              (sym (source-ne j (==-false→ne j free dj)) ∙ sym e ∙ source-free i (==→eq i free si)))
    ]
    | inr di ↦ elim (Bool-cases (j == free)) [
      | inl sj ↦
          absurd
            (ni (sym (source-ne i (==-false→ne i free di)) ∙ e ∙ source-free j (==→eq j free sj)))
      | inr dj ↦ sym (source-ne i (==-false→ne i free di)) ∙ e ∙ source-ne j (==-false→ne j free dj)
    ]
  ]

  pub move-Inserts : Inserts key v f g
  move-Inserts = record {
    new = home key;
    new_key = mp-new;
    new_val = val_eq at_mp;
    src = source;
    back = λ j k ne there. (sym (entry_back j ne).0 ∙ there, (entry_back j ne).1);
    injective = source-injective;
    kept = λ i k there. elim (Bool-cases (i == home key)) [
      | inl same ↦
          let e = ==→eq i (home key) same in
          (
            free,
            λ d. mp-ne_free (sym d),
            key_eq at_free ∙ ap (λ t. (f t).key) (sym e) ∙ there,
            val_eq at_free ∙ ap (λ t. (f t).val) (sym e),
          )
      | inr differ ↦
          let away = ==-false→ne i (home key) differ in
          let (k_same, v_same) = same_entry i (used-ne i k there) away in
          (i, away, k_same ∙ there, v_same)
    ];
  }

  once : Once (front ++ prev ∷ home key ∷ back)
  once =
      Leads-Once home f (home stored) (some (home stored)) (front ++ prev ∷ home key ∷ back) chain

  chain-Used : (i : ℕ) → In i (front ++ prev ∷ home key ∷ back) → Used home f (home stored) i
  chain-Used i m =
      Leads-Used home f (home stored) (some (home stored)) (front ++ prev ∷ home key ∷ back) i none
        m chain

  stays : (i : ℕ) → In i (front ++ prev ∷ home key ∷ back) → i ≢ home key → i ≢ prev → g i ≡ f i
  stays i m away ne = let (o, used, at) = chain-Used i m in others i (used-ne i o used) away ne

  moved_chain : Leads home g (home stored) (some (home stored)) (front ++ prev ∷ free ∷ back) none
  moved_chain =
      let (before, (e, (k, there, at), (d, used, after))) =
        Leads-cut home f (home stored) (some (home stored)) front prev (home key ∷ back) none
          chain in
      let later = Once-append_right front (prev ∷ home key ∷ back) once in
      Leads-append home g (home stored) (some (home stored)) front (prev ∷ free ∷ back) (some prev)
        none
        (Leads-frame home f (home stored) g (some (home stored)) front (some prev)
          (All-In (λ i. g i ≡ f i) front
            λ i m.
              stays i (In-append_left front (prev ∷ home key ∷ back) i m)
                (front_ne front (prev ∷ home key ∷ back) i (home key) once m (inr (inl refl)))
                (front_ne front (prev ∷ home key ∷ back) i prev once m (inl refl)))
          before)
        (
          refl,
          (k, key_eq at_prev ∙ there, at),
          (
            next_eq at_prev,
            (stored, key_eq at_free ∙ held, refl),
            subst (λ t. Leads home g (home stored) t back none) (sym (next_eq at_free))
                (Leads-frame home f (home stored) g (f (home key)).next back none
                  (All-In (λ i. g i ≡ f i) back
                    λ i m.
                      stays i (In-append_right front (prev ∷ home key ∷ back) i (inr (inr m)))
                        (λ e. later.1.0 (subst (λ t. In t back) e m))
                        (λ e. later.0 (inr (subst (λ t. In t back) e m))))
                  after),
          ),
        )

  through :
      (i : ℕ)
      → i ≢ home key
      → In i (front ++ prev ∷ home key ∷ back)
      → In i (front ++ prev ∷ free ∷ back)
  through i away m = elim (In-append_cases front (prev ∷ home key ∷ back) i m) [
    | inl here ↦ In-append_left front (prev ∷ free ∷ back) i here
    | inr there ↦ In-append_right front (prev ∷ free ∷ back) i (elim there [
      | inl e ↦ inl e
      | inr (inl e) ↦ absurd (away e)
      | inr (inr later) ↦ inr (inr later)
    ])
  ]

  free-In : In free (front ++ prev ∷ free ∷ back)
  free-In = In-append_right front (prev ∷ free ∷ back) free (inr (inl refl))

  -- The place of a key that was there before and did not move.
  stayed :
      (i : ℕ) (k : K)
      → (f i).key ≡ some k
      → i ≢ home key
      → (l : List ℕ) × Leads home g (home k) (some (home k)) l none × In i l
  stayed i k before away = elim (Bool-cases (home k == home stored)) [
    | inl same ↦
        let e = ==→eq (home k) (home stored) same in
        let (own, d, here) = p.placed i k before in
        let one =
          Leads-unique home f (home stored) (home stored) (some (home stored)) own
            (front ++ prev ∷ home key ∷ back) (subst (λ h. Leads home f h (some h) own none) e d)
            chain in
        subst (λ h. (l : List ℕ) × Leads home g h (some h) l none × In i l) (sym e)
          (front ++ prev ∷ free ∷ back, moved_chain, through i away (subst (λ t. In i t) one here))
    | inr differ ↦
        let ne = ==-false→ne (home k) (home stored) differ in
        Placed-frame home f g i k p before λ j o used at.
          others j (used-ne j o used)
            (λ e.
              let is_stored : some stored ≡ some o =
                sym held ∙ ap (λ t. (f t).key) (sym e) ∙ used in
              ne (sym at ∙ ap home (sym (some_inj is_stored))))
            (λ e.
              let (q, there, home_q) =
                chain-Used prev (In-append_right front (prev ∷ home key ∷ back) prev (inl refl)) in
              let is_q : some q ≡ some o = sym there ∙ ap (λ t. (f t).key) (sym e) ∙ used in
              ne (sym at ∙ ap home (sym (some_inj is_q)) ∙ home_q))
  ]

  pub move-Placed : Placed keys.keyeq home g
  move-Placed = record {
    placed = λ i k there. elim (Bool-cases (i == home key)) [
      | inl same ↦
          let e = ==→eq i (home key) same in
          let is_key : some key ≡ some k = sym mp-new ∙ ap (λ t. (g t).key) (sym e) ∙ there in
          subst (λ h. (l : List ℕ) × Leads home g h (some h) l none × In i l)
            (ap home (some_inj is_key))
            (home key ∷ [], (refl, (key, mp-new, refl), next_eq at_mp), inl e)
      | inr other ↦
          let away = ==-false→ne i (home key) other in
          elim (Bool-cases (i == free)) [
            | inl same ↦
                let e = ==→eq i free same in
                let is_stored : some stored ≡ some k =
                  sym (key_eq at_free ∙ held) ∙ ap (λ t. (g t).key) (sym e) ∙ there in
                subst (λ h. (l : List ℕ) × Leads home g h (some h) l none × In i l)
                  (ap home (some_inj is_stored))
                  (
                    front ++ prev ∷ free ∷ back,
                    moved_chain,
                    subst (λ t. In t (front ++ prev ∷ free ∷ back)) (sym e) free-In,
                  )
            | inr differ ↦
                stayed i k (sym (same_entry i (==-false→ne i free differ) away).0 ∙ there) away
          ]
    ];
    bare = λ i gone. elim (Bool-cases (i == home key)) [
      | inl same ↦
          let is_key : some key ≡ none =
            sym mp-new ∙ ap (λ t. (g t).key) (sym (==→eq i (home key) same)) ∙ gone in
          cc
      | inr other ↦
          let away = ==-false→ne i (home key) other in
          elim (Bool-cases (i == free)) [
            | inl same ↦
                let is_stored : some stored ≡ none =
                  sym (key_eq at_free ∙ held)
                  ∙ ap (λ t. (g t).key) (sym (==→eq i free same))
                  ∙ gone in
                cc
            | inr differ ↦
                let ne = ==-false→ne i free differ in
                let before = sym (same_entry i ne away).0 ∙ gone in
                let apart : i ≢ prev = λ e.
                  let (q, there, home_q) =
                    chain-Used prev
                      (In-append_right front (prev ∷ home key ∷ back) prev (inl refl)) in
                  let is_q : some q ≡ none = sym there ∙ ap (λ t. (f t).key) (sym e) ∙ before in
                  cc in
                next_eq (others i ne away apart) ∙ p.bare i before
          ]
    ];
    unique = Inserts-unique key v f g move-Inserts absent p.unique;
  }

  -- A node that is free after was so before.
  pub move-bare : (j : ℕ) → (g j).key ≡ none → (f j).key ≡ none
  move-bare j gone = elim (Bool-cases (j == free)) [
    | inl same ↦ ap (λ t. (f t).key) (==→eq j free same) ∙ unused
    | inr differ ↦ elim (Bool-cases (j == home key)) [
      | inl is_mp ↦
          let is_key : some key ≡ none =
            sym mp-new ∙ ap (λ t. (g t).key) (sym (==→eq j (home key) is_mp)) ∙ gone in
          cc
      | inr away ↦
          sym (same_entry j (==-false→ne j free differ) (==-false→ne j (home key) away)).0 ∙ gone
    ]
  ]
