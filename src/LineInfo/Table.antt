-- ===== src/LineInfo/Table.antt =====
-- What the compiler's calls of `saveline` leave in the table.
use mathlib.Core.List.{append_assoc, append-nil}
use dummyscheme.Common.{
  some, suc, [], ◌∷◌, true, false, ℕ, List, length, set, replicate, refl, inl, inr, ◌<◌, leb, ◌++◌,
  ◌≡◌, ◌+◌, ◌≤◌, ◌∙◌, ap, sym, arith, ltb, Bool-cases, ◌-◌, length-append, if◌then◌else◌, ◌^◌, ◌*◌,
}
use dummyscheme.Common.Int.{ℤ, ◌-ℤ◌}
use dummyscheme.Fixnum.{abs}
use dummyscheme.LineInfo.{
  AbsLine, LineTable, growvec_size, growvec, grown, saveline, save_all, to_byte, int_limit, wider,
  anchor_diff, mlinediff, absline, doubled, most_lines, minvec_size,
}

-- A vector with room for `ne` elements at least that is full gets room for one more.
abbrev widest : ℕ → ℕ → ℕ
widest limit more =
    let least = if ltb more minvec_size then minvec_size else more in
    if leb limit least then limit else least

wider_lem :
    (ne limit : ℕ)
    → ne < limit
    → ne < 2 ^ 30 - 1
    → (least : ℕ) × (wider ne ne limit ≡ some least) × (ne < least)
unfolding wider doubled
wider_lem ne limit h fits =
    let once : ltb ne (2 ^ 30) ≡ true = ground (arith, fits) in
    elim (Bool-cases (leb (ne * 2) (ne + 1))) [
      | inl short ↦
          let again : ltb (ne * 2) (2 ^ 30) ≡ true = ground (arith, short) in
          (widest limit (ne * 2 * 2), rw (once, short, again) refl, ground (arith, h, short))
      | inr long ↦ (widest limit (ne * 2), rw (once, long) refl, ground (arith, h, long))
    ]

growvec_size_lem :
    (ne limit : ℕ)
    → ne < limit
    → ne < 2 ^ 30 - 1
    → (least : ℕ) × (growvec_size ne ne limit ≡ some least) × (ne < least)
unfolding growvec_size
growvec_size_lem ne limit h fits =
    let (least, run, above) = wider_lem ne limit h fits in
    let full : leb (ne + 1) ne ≡ false = ground arith in
    let free : ltb ne limit ≡ true = ground (arith, h) in
    let enough : leb (ne + 1) least ≡ true = ground (arith, above) in
    (least, rw (full, free, run, enough) refl, above)

-- The bytes and the anchors for the lines from an instruction on.
abbrev pub byte_for : ℤ → ℤ → ℕ
byte_for pre l = to_byte (anchor_diff 0 l (l -ℤ pre)).1

abbrev pub codes : ℤ → List ℤ → List ℕ
codes pre [] = []
codes pre (l ∷ later) = byte_for pre l ∷ codes l later

abbrev pub anchor_for : ℕ → ℤ → ℤ → List AbsLine
anchor_for pc pre l = (anchor_diff pc l (l -ℤ pre)).0

abbrev pub anchors : ℕ → ℤ → List ℤ → List AbsLine
anchors pc pre [] = []
anchors pc pre (l ∷ later) = anchor_for pc pre l ++ anchors (suc pc) l later

pub anchor_diff-jump :
    (pc : ℕ) (l d : ℤ)
    → leb mlinediff (abs d) ≡ true
    → anchor_diff pc l d ≡ (record { pc = pc; line = l } ∷ [], absline)
unfolding anchor_diff
anchor_diff-jump pc l d big = rw big refl

pub anchor_diff-near :
    (pc : ℕ) (l d : ℤ) → leb mlinediff (abs d) ≡ false → anchor_diff pc l d ≡ ([], d)
unfolding anchor_diff
anchor_diff-near pc l d little = rw little refl

anchor_diff-byte : (pc : ℕ) (l d : ℤ) → (anchor_diff pc l d).1 ≡ (anchor_diff 0 l d).1
unfolding anchor_diff
anchor_diff-byte pc l d = elim (Bool-cases (leb mlinediff (abs d))) [
  | inl big ↦ rw big refl
  | inr little ↦ rw little refl
]

set-append :
    (front rest : List ℕ) (r c : ℕ)
    → set (front ++ (r ∷ rest)) (length front) c ≡ front ++ (c ∷ rest)
set-append [] rest r c = refl
set-append (x ∷ front) rest r c = ap (λ t. x ∷ t) (set-append front rest r c)

grown_full :
    (front : List ℕ) (pc size : ℕ)
    → pc ≡ length front
    → pc < size
    → growvec_size pc pc int_limit ≡ some size
    → grown (front ++ []) pc ≡ some (front ++ (0 ∷ replicate (size - pc - 1) 0))
unfolding grown growvec
grown_full front pc size place above run =
    let full : leb (length front) pc ≡ true = ground (arith, place) in
    let added : size - pc ≡ suc (size - pc - 1) = omega (arith, above) in
    rw (append-nil front, full, ← place, run) (ap (λ n. some (front ++ replicate n 0)) added)

grown_lem :
    (front rest : List ℕ) (pc : ℕ)
    → pc ≡ length front
    → pc < most_lines
    → (r : ℕ) × (more : List ℕ) × (grown (front ++ rest) pc ≡ some (front ++ (r ∷ more)))
unfolding grown
grown_lem front [] pc place h =
    let (size, run, above) = growvec_size_lem pc int_limit (omega (arith, h)) (omega (arith, h)) in
    (0, replicate (size - pc - 1) 0, grown_full front pc size place above run)
grown_lem front (r ∷ rest) pc place h =
    let room : leb (length (front ++ (r ∷ rest))) pc ≡ false =
      ground (arith, place, length-append front (r ∷ rest)) in
    (r, rest, rw room refl)

saveline_lem :
    (t : LineTable) (front rest : List ℕ) (pc : ℕ) (line pre : ℤ)
    → t.lines ≡ front ++ rest
    → pc ≡ length front
    → pc < most_lines
    → (u : LineTable) × (more : List ℕ) × (saveline t pc line pre ≡ some u)
      × (u.lines ≡ front ++ byte_for pre line ∷ [] ++ more)
      × (u.abslines ≡ t.abslines ++ anchor_for pc pre line)
      × (u.defline ≡ t.defline)
unfolding saveline
saveline_lem t front rest pc line pre whole place h =
    let (r, more, run) = grown_lem front rest pc place h in
    let byte = to_byte (anchor_diff pc line (line -ℤ pre)).1 in
    let u : LineTable = record {
      lines = set (front ++ (r ∷ more)) pc byte;
      abslines = t.abslines ++ anchor_for pc pre line;
      defline = t.defline;
    } in
    (
      u,
      more,
      rw (whole, run) refl,
      ap (λ n. set (front ++ (r ∷ more)) n byte) place
          ∙ set-append front more r byte
          ∙ ap (λ d. front ++ (to_byte d ∷ more)) (anchor_diff-byte pc line (line -ℤ pre))
          ∙ sym (append_assoc front (byte_for pre line ∷ []) more),
      refl,
      refl,
    )

pub save_all_lem :
    (ls : List ℤ) (t : LineTable) (front rest : List ℕ) (pc : ℕ) (pre : ℤ)
    → t.lines ≡ front ++ rest
    → pc ≡ length front
    → pc + length ls ≤ most_lines
    → (u : LineTable) × (more : List ℕ) × (save_all t pc pre ls ≡ some u)
      × (u.lines ≡ front ++ codes pre ls ++ more)
      × (u.abslines ≡ t.abslines ++ anchors pc pre ls)
      × (u.defline ≡ t.defline)
unfolding save_all
save_all_lem [] t front rest pc pre whole place h = (
  t,
  rest,
  refl,
  whole ∙ ap (λ s. s ++ rest) (sym (append-nil front)),
  sym (append-nil t.abslines),
  refl,
)
save_all_lem (l ∷ later) t front rest pc pre whole place h =
    let (u, more, run, bytes, als, def) =
      saveline_lem t front rest pc l pre whole place (omega (arith, h)) in
    let (v, last, runs, lines, abslines, defline) =
      save_all_lem later u (front ++ byte_for pre l ∷ []) more (suc pc) l bytes
        (omega (arith, place, length-append front (byte_for pre l ∷ []))) (omega (arith, h)) in
    (
      v,
      last,
      rw run runs,
      lines ∙ ap (λ s. s ++ last) (append_assoc front (byte_for pre l ∷ []) (codes l later)),
      abslines
          ∙ ap (λ s. s ++ anchors (suc pc) l later) als
          ∙ append_assoc t.abslines (anchor_for pc pre l) (anchors (suc pc) l later),
      defline ∙ def,
    )
