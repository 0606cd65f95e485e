-- ===== src/LineInfo/RoundTrip.antt =====
-- The table gives back the lines that were saved.
use mathlib.Core.Path.{subst}
use mathlib.Core.List.{append_assoc}
use mathlib.Core.Option.{none-ne-some, some-injective}
use dummyscheme.Common.{
  some, zero, suc, ◌∷◌, true, false, ℕ, List, length, get_or, get_elem?, refl, inl, inr, ◌<◌, ◌≡◌,
  ◌≤◌, ◌==◌, Bool-cases, ◌++◌, arith, ltb, ap, leb, length-append, ◌∙◌, sym, [], All,
}
use dummyscheme.Common.Int.{ℤ, pos, negsuc, int_laws, ◌+ℤ◌, ◌-ℤ◌}
use dummyscheme.Fixnum.{abs}
use dummyscheme.LineInfo.{
  AbsLine, LineTable, skip_to, anchored, nextline, line_loop, getline, save_all, to_byte,
  signed_char, most_lines, mlinediff, IsLine,
}
use dummyscheme.LineInfo.Table.{
  byte_for, codes, anchors, save_all_lem, anchor_diff-jump, anchor_diff-near,
}

signed_char-to_byte :
    (d : ℤ) → abs d < 128 → (signed_char (to_byte d) ≡ d) × ((to_byte d == 128) ≡ false)
signed_char-to_byte (pos n) h = (ground (arith, h), ground (arith, h))
signed_char-to_byte (negsuc n) h = (ground (arith, h), ground (arith, h))

back : (pre l : ℤ) → pre +ℤ (l -ℤ pre) ≡ l
back pre l = omega int_laws

skip_to-suc : (als : List AbsLine) (i : ℕ) → skip_to als (suc i) ≡ skip_to (skip_to als i) (suc i)
unfolding skip_to
skip_to-suc [] i = refl
skip_to-suc (al ∷ als) i = elim (Bool-cases (ltb al.pc i)) [
  | inl passed ↦
      let sooner : ltb al.pc (suc i) ≡ true = ground (arith, passed) in
      rw (passed, sooner) (skip_to-suc als i)
  | inr kept ↦ rw kept refl
]

-- The anchors from an instruction on, whether it has one or not.
anchors-jump :
    (i : ℕ) (pre l : ℤ) (later : List ℤ)
    → leb mlinediff (abs (l -ℤ pre)) ≡ true
    → anchors i pre (l ∷ later) ≡ record { pc = i; line = l } ∷ anchors (suc i) l later
anchors-jump i pre l later big =
    ap (λ (r : List AbsLine × ℤ). r.0 ++ anchors (suc i) l later)
      (anchor_diff-jump i l (l -ℤ pre) big)

anchors-near :
    (i : ℕ) (pre l : ℤ) (later : List ℤ)
    → leb mlinediff (abs (l -ℤ pre)) ≡ false
    → anchors i pre (l ∷ later) ≡ anchors (suc i) l later
anchors-near i pre l later little =
    ap (λ (r : List AbsLine × ℤ). r.0 ++ anchors (suc i) l later)
      (anchor_diff-near i l (l -ℤ pre) little)

-- Anchors from `j` on are not passed over before `j`.
skip_to-anchors :
    (ls : List ℤ) (i j : ℕ) (pre : ℤ) → i ≤ j → skip_to (anchors j pre ls) i ≡ anchors j pre ls
unfolding skip_to
skip_to-anchors [] i j pre h = refl
skip_to-anchors (l ∷ later) i j pre h = elim (Bool-cases (leb mlinediff (abs (l -ℤ pre)))) [
  | inl big ↦
      let kept : ltb j i ≡ false = ground (arith, h) in
      subst (λ t. skip_to t i ≡ t) (sym (anchors-jump j pre l later big)) (rw kept refl)
  | inr little ↦
      subst (λ t. skip_to t i ≡ t) (sym (anchors-near j pre l later little))
        (skip_to-anchors later i (suc j) l (omega (arith, h)))
]

nextline-jump :
    (als rest : List AbsLine) (i : ℕ) (pre l : ℤ)
    → skip_to als i ≡ record { pc = i; line = l } ∷ rest
    → nextline 128 als i pre ≡ (l, record { pc = i; line = l } ∷ rest)
unfolding nextline anchored
nextline-jump als rest i pre l ready =
    let here : (i == i) ≡ true = ground arith in rw (ready, here) refl

nextline-near :
    (als : List AbsLine) (i : ℕ) (pre d : ℤ)
    → abs d < 128
    → nextline (to_byte d) als i pre ≡ (pre +ℤ d, als)
unfolding nextline
nextline-near als i pre d h = let (value, other) = signed_char-to_byte d h in rw (other, value) refl

-- One entry gives its line and leaves the anchors of the instructions after it.
Reads : ℤ → ℕ → List ℤ → ℤ × List AbsLine → Type 0
Reads l i later r = (r.0 ≡ l) × (skip_to r.1 i ≡ anchors i l later)

nextline_lem :
    (als : List AbsLine) (i : ℕ) (pre l : ℤ) (later : List ℤ)
    → skip_to als i ≡ anchors i pre (l ∷ later)
    → Reads l (suc i) later (nextline (byte_for pre l) als i pre)
unfolding Reads skip_to
nextline_lem als i pre l later h = elim (Bool-cases (leb mlinediff (abs (l -ℤ pre)))) [
  | inl big ↦
      let over : ltb i (suc i) ≡ true = ground arith in
      let byte : byte_for pre l ≡ 128 =
        ap (λ (r : List AbsLine × ℤ). to_byte r.1) (anchor_diff-jump 0 l (l -ℤ pre) big) in
      let read =
        nextline-jump als (anchors (suc i) l later) i pre l (h ∙ anchors-jump i pre l later big) in
      subst (λ r. Reads l (suc i) later r) (sym (ap (λ b. nextline b als i pre) byte ∙ read))
        (refl, rw over (skip_to-anchors later (suc i) (suc i) l (omega arith)))
  | inr little ↦
      let byte : byte_for pre l ≡ to_byte (l -ℤ pre) =
        ap (λ (r : List AbsLine × ℤ). to_byte r.1) (anchor_diff-near 0 l (l -ℤ pre) little) in
      let read = nextline-near als i pre (l -ℤ pre) (ground (arith, little)) in
      subst (λ r. Reads l (suc i) later r) (sym (ap (λ b. nextline b als i pre) byte ∙ read))
        (
          back pre l,
          skip_to-suc als i
              ∙ ap (λ t. skip_to t (suc i)) (h ∙ anchors-near i pre l later little)
              ∙ skip_to-anchors later (suc i) (suc i) l (omega arith),
        )
]

get_or-append : (front rest : List ℕ) (x : ℕ) → get_or (front ++ (x ∷ rest)) (length front) 0 ≡ x
get_or-append [] rest x = refl
get_or-append (y ∷ front) rest x = get_or-append front rest x

entry :
    (lines front rest : List ℕ) (i x : ℕ)
    → lines ≡ front ++ (x ∷ rest)
    → i ≡ length front
    → get_or lines i 0 ≡ x
entry lines front rest i x whole place = rw (whole, place) (get_or-append front rest x)

line_loop_lem :
    (ls : List ℤ) (lines front more : List ℕ) (i k : ℕ) (als : List AbsLine) (pre l : ℤ)
    → lines ≡ front ++ codes pre ls ++ more
    → i ≡ length front
    → skip_to als i ≡ anchors i pre ls
    → get_elem? ls k ≡ some l
    → line_loop lines i (suc k) als pre ≡ l
unfolding line_loop Reads
line_loop_lem [] lines front more i k als pre l whole place ready there =
    absurd (none-ne-some l there)
line_loop_lem (now ∷ later) lines front more i zero als pre l whole place ready there =
    let byte =
      entry lines front (codes now later ++ more) i (byte_for pre now)
        (whole ∙ append_assoc front (codes pre (now ∷ later)) more) place in
    rw (line_loop, byte) ((nextline_lem als i pre now later ready).0 ∙ some-injective now l there)
line_loop_lem (now ∷ later) lines front more i (suc k) als pre l whole place ready there =
    let byte =
      entry lines front (codes now later ++ more) i (byte_for pre now)
        (whole ∙ append_assoc front (codes pre (now ∷ later)) more) place in
    let (read, left) = nextline_lem als i pre now later ready in
    rw (line_loop, byte, read)
      (line_loop_lem later lines (front ++ byte_for pre now ∷ []) more (suc i) k
        (nextline (byte_for pre now) als i pre).1 now l
        (whole
          ∙ ap (λ t. t ++ more)
              (sym (append_assoc front (byte_for pre now ∷ []) (codes now later))))
        (omega (arith, place, length-append front (byte_for pre now ∷ []))) left there)

length-codes : (pre : ℤ) (ls : List ℤ) → length (codes pre ls) ≡ length ls
length-codes pre [] = refl
length-codes pre (l ∷ later) = ap suc (length-codes l later)

lt_of_get_elem? {ℓ} :
    {A : Type ℓ} (xs : List A) (k : ℕ) (x : A) → get_elem? xs k ≡ some x → k < length xs
lt_of_get_elem? [] k x h = absurd (none-ne-some x h)
lt_of_get_elem? (y ∷ xs) zero x h = omega arith
lt_of_get_elem? (y ∷ xs) (suc k) x h = omega (arith, lt_of_get_elem? xs k x h)

-- For at most 2 ^ 27 instructions, and lines and a `defline` from 0 to 2 ^ 31 - 1, saving their
-- lines in order, each with the line before it, succeeds, and `getline` then gives for each
-- instruction the line saved for it.
pub getline-save_all :
    (defline : ℤ) (ls : List ℤ)
    → length ls ≤ most_lines
    → IsLine defline
    → All IsLine ls
    → (t : LineTable) × (save_all
          (record { lines = []; abslines = []; defline = defline })
          0
          defline
          ls
        ≡ some t)
      × ((pc : ℕ) (l : ℤ) → get_elem? ls pc ≡ some l → getline t pc ≡ l)
unfolding getline
getline-save_all defline ls h nonnegative ints =
    let (t, more, run, lines, abslines, kept) =
      save_all_lem ls (record { lines = []; abslines = []; defline = defline }) [] [] 0 defline refl
        refl (omega (arith, h)) in
    (
      t,
      run,
      λ pc l there.
          let inside : leb (length t.lines) pc ≡ false = ground (
            arith,
            ap length lines,
            length-append (codes defline ls) more,
            length-codes defline ls,
            lt_of_get_elem? ls pc l there,
          ) in
          rw (inside, abslines, kept)
            (line_loop_lem ls t.lines [] more 0 pc (anchors 0 defline ls) defline l lines refl
              (skip_to-anchors ls 0 0 defline (omega arith)) there),
    )
