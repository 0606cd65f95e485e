-- ===== src/HashTable/Nodes/Insert.antt =====
-- What a new key does to the nodes: the three cases of `insertkey` on the nodes as a function.
pub mod Chained
pub mod Moved
use mathlib.Core.Path.{subst}
use dummyscheme.Common.{
  none, some, [], ◌∷◌, ℕ, List, inl, inr, ◌≡◌, ◌≢◌, refl, sym, ap, ◌∙◌, true, false, Bool-cases,
  ◌==◌, ==→eq, ==-false→ne, some_inj,
}
use dummyscheme.HashTable.Nodes.{TableNode, Keys}
use dummyscheme.HashTable.Nodes.Chains.{In, All-In, Leads, Leads-frame, Leads-Used}
use dummyscheme.HashTable.Nodes.Lookup.{Placed}

-- The nodes after are those before, at `src`, and one new node.
pub record Inserts {K V : Type 0} (key : K) (v : V) (f g : ℕ → TableNode K V) : Type 0 where
  pub new : ℕ
  pub new_key : (g new).key ≡ some key
  pub new_val : (g new).val ≡ some v
  pub src : ℕ → ℕ
  pub back :
      (j : ℕ) (k : K)
      → j ≢ new
      → (g j).key ≡ some k
      → ((f (src j)).key ≡ some k) × ((g j).val ≡ (f (src j)).val)
  pub injective : (i j : ℕ) → i ≢ new → j ≢ new → src i ≡ src j → i ≡ j
  pub kept :
      (i : ℕ) (k : K)
      → (f i).key ≡ some k
      → (j : ℕ) × (j ≢ new) × ((g j).key ≡ some k) × ((g j).val ≡ (f i).val)

module _ {K V : Type 0} where
  pub key_eq : {m n : TableNode K V} → m ≡ n → m.key ≡ n.key
  key_eq e = ap (λ (t : TableNode K V). t.key) e

  pub val_eq : {m n : TableNode K V} → m ≡ n → m.val ≡ n.val
  val_eq e = ap (λ (t : TableNode K V). t.val) e

  pub next_eq : {m n : TableNode K V} → m ≡ n → m.next ≡ n.next
  next_eq e = ap (λ (t : TableNode K V). t.next) e

module _ {K V : Type 0} ⦃keys : Keys K⦄ where
  -- No key is equal to the given one.
  abbrev pub Absent : (ℕ → TableNode K V) → K → Type 0
  Absent f q = (i : ℕ) (k : K) → (f i).key ≡ some k → keys.keyeq q k ≡ false

  pub Inserts-unique :
      (key : K) (v : V) (f g : ℕ → TableNode K V)
      → Inserts key v f g
      → Absent f key
      → ((i j : ℕ) (a b : K)
          → (f i).key ≡ some a
          → (f j).key ≡ some b
          → keys.keyeq a b ≡ true
          → i ≡ j)
      → (i j : ℕ) (a b : K) → (g i).key ≡ some a
      → (g j).key ≡ some b
      → keys.keyeq a b ≡ true
      → i ≡ j
  Inserts-unique key v f g ins absent unique i j a b hi hj same = elim (Bool-cases (i == ins.new)) [
    | inl first ↦ elim (Bool-cases (j == ins.new)) [
      | inl second ↦ ==→eq i ins.new first ∙ sym (==→eq j ins.new second)
      | inr other ↦
          let is_new : some key ≡ some a =
            sym ins.new_key ∙ ap (λ t. (g t).key) (sym (==→eq i ins.new first)) ∙ hi in
          let (there, _) = ins.back j b (==-false→ne j ins.new other) hj in
          let differ = absent (ins.src j) b there in let e = some_inj is_new in cc
    ]
    | inr other ↦
        let (there, _) = ins.back i a (==-false→ne i ins.new other) hi in
        elim (Bool-cases (j == ins.new)) [
          | inl second ↦
              let is_new : some key ≡ some b =
                sym ins.new_key ∙ ap (λ t. (g t).key) (sym (==→eq j ins.new second)) ∙ hj in
              let differ = absent (ins.src i) a there in
              let e = some_inj is_new in let back = keys.keyeq_symm a b same in cc
          | inr neither ↦
              let (here, _) = ins.back j b (==-false→ne j ins.new neither) hj in
              ins.injective i j (==-false→ne i ins.new other) (==-false→ne j ins.new neither)
                (unique (ins.src i) (ins.src j) a b there here same)
        ]
  ]

  -- A chain whose nodes are as before.
  pub Placed-frame :
      (home : K → ℕ) (f g : ℕ → TableNode K V) (i : ℕ) (k : K)
      → Placed keys.keyeq home f
      → (f i).key ≡ some k
      → ((j : ℕ) (o : K) → (f j).key ≡ some o → home o ≡ home k → g j ≡ f j)
      → (l : List ℕ) × Leads home g (home k) (some (home k)) l none × In i l
  Placed-frame home f g i k p there same =
      let (l, c, m) = p.placed i k there in
      (
        l,
        Leads-frame home f (home k) g (some (home k)) l none
            (All-In (λ j. g j ≡ f j) l
              λ j among.
                let (o, used, at) = Leads-Used home f (home k) (some (home k)) l j none among c in
                same j o used at)
            c,
        m,
      )

-- An unused main position gets the key.
module _ {K V : Type 0} ⦃keys : Keys K⦄ (home : K → ℕ) (f g : ℕ → TableNode K V) (key : K) (v : V)
    (p : Placed keys.keyeq home f) (absent : Absent f key) (unused : (f (home key)).key ≡ none)
    (at_mp : g (home key) ≡ record { key = some key; val = some v; next = (f (home key)).next })
    (others : (j : ℕ) → j ≢ home key → g j ≡ f j) where
  at_new : (g (home key)).key ≡ some key
  at_new = key_eq at_mp

  pub fill-Inserts : Inserts key v f g
  fill-Inserts = record {
    new = home key;
    new_key = at_new;
    new_val = val_eq at_mp;
    src = λ j. j;
    back = λ j k ne there. (key_eq (sym (others j ne)) ∙ there, val_eq (others j ne));
    injective = λ i j ni nj e. e;
    kept = λ i k there.
        let ne : i ≢ home key = λ e. absurd_used i k e there in
        (i, ne, key_eq (others i ne) ∙ there, val_eq (others i ne));
  }
    where
      absurd_used : (i : ℕ) (k : K) → i ≡ home key → (f i).key ≡ some k → ⊥
      absurd_used i k e there = let gone : (f i).key ≡ none = ap (λ t. (f t).key) e ∙ unused in cc

  pub fill-Placed : Placed keys.keyeq home g
  fill-Placed = record {
    placed = λ i k there. elim (Bool-cases (i == home key)) [
      | inl same ↦
          let e = ==→eq i (home key) same in
          let is_key : some key ≡ some k = sym at_new ∙ ap (λ t. (g t).key) (sym e) ∙ there in
          let same_home : home key ≡ home k = ap home (some_inj is_key) in
          subst (λ h. (l : List ℕ) × Leads home g h (some h) l none × In i l) same_home
            (
              home key ∷ [],
              (refl, (key, at_new, refl), next_eq at_mp ∙ p.bare (home key) unused),
              inl e,
            )
      | inr differ ↦
          let ne = ==-false→ne i (home key) differ in
          Placed-frame home f g i k p (key_eq (sym (others i ne)) ∙ there) λ j o used at.
            others j λ e. let gone : (f j).key ≡ none = ap (λ t. (f t).key) e ∙ unused in cc
    ];
    bare = λ i none_there. elim (Bool-cases (i == home key)) [
      | inl same ↦
          let e = ==→eq i (home key) same in
          let is_key : some key ≡ none = sym at_new ∙ ap (λ t. (g t).key) (sym e) ∙ none_there in cc
      | inr differ ↦
          let ne = ==-false→ne i (home key) differ in
          next_eq (others i ne) ∙ p.bare i (key_eq (sym (others i ne)) ∙ none_there)
    ];
    unique = Inserts-unique key v f g fill-Inserts absent p.unique;
  }

  -- A node that is free after was so before.
  pub fill-bare : (j : ℕ) → (g j).key ≡ none → (f j).key ≡ none
  fill-bare j gone = elim (Bool-cases (j == home key)) [
    | inl same ↦ ap (λ t. (f t).key) (==→eq j (home key) same) ∙ unused
    | inr differ ↦ key_eq (sym (others j (==-false→ne j (home key) differ))) ∙ gone
  ]
