-- ===== src/Format/Fields.antt =====
-- The loop over a format as a run over its list of fields, and its fuel.
use mathlib.Core.Option.{some-injective, none-ne-some}
use mathlib.Core.Path.{fun_ext}
use dummyscheme.Common.{
  none, some, zero, suc, [], ◌∷◌, true, false, ◌>>=◌, ℕ, Bool, List, length, Option, ◌≤◌, ◌≡◌,
  arith, bind-some, Bool-cases, ap, leb, ◌&&◌, refl, inl, ◌*◌, ◌+◌, ◌-◌, inr, if◌then◌else◌, ◌==◌,
  ◌||◌, ◌∙◌,
}
use dummyscheme.Format.{
  Field, read_field, each_field, sized, read_integer, read_value, prefixed, integer, align, chars,
}
use dummyscheme.Pack.{parse_digits, parse_intwidth}

-- The fields of a format; `none` when an option of it is invalid.
unfoldable pub fields : ℕ → List ℕ → Option (List Field)
fields fuel [] = some []
fields zero (c ∷ cs) = none
fields (suc fuel) (c ∷ cs) = do
  (field, rest) ← read_field c cs
  later ← fields fuel rest
  some (field ∷ later)

abbrev pub fields_of : List ℕ → Option (List Field)
fields_of fmt = fields (length fmt) fmt

module _ {ℓ} {S : Type ℓ} (step : Field → S → Option S) where
  unfoldable pub run : List Field → S → Option S
  run [] s = some s
  run (field ∷ later) s = step field s >>= run later

  pub each_field-fields :
      (fuel : ℕ) (cs : List ℕ) (s : S) (later : List Field)
      → fields fuel cs ≡ some later
      → each_field step fuel cs s ≡ run later s
  unfolding fields each_field run
  each_field-fields fuel [] s later h = rw (← some-injective [] later h) refl
  each_field-fields zero (c ∷ cs) s later h = absurd (none-ne-some later h)
  each_field-fields (suc fuel) (c ∷ cs) s later h =
      let (r, read, h1) = bind-some (read_field c cs) _ later h in
      let (os, rest, h2) = bind-some (fields fuel r.1) _ later h1 in
      rw read (
        ap (λ k. step r.0 s >>= k) (fun_ext (λ t. each_field-fields fuel r.1 t os rest))
        ∙ ap (λ l. run l s) (some-injective (r.0 ∷ os) later h2))

length-parse_digits : (cs : List ℕ) (n : ℕ) → length (parse_digits cs n).1 ≤ length cs
unfolding parse_digits
length-parse_digits [] n = omega arith
length-parse_digits (c ∷ cs) n = elim (Bool-cases (leb b'0' c && leb c b'9')) [
  | inl digit ↦ rw digit (omega (arith, length-parse_digits cs (n * 10 + (c - b'0'))))
  | inr other ↦ rw other (omega arith)
]

-- What is left is no longer than the format.
Within : List ℕ → Option (Field × List ℕ) → Type 0
Within cs none = Unit
Within cs (some r) = length r.1 ≤ length cs

if-Within :
    (cs : List ℕ) (b : Bool) (x y : Option (Field × List ℕ))
    → Within cs x
    → Within cs y
    → Within cs (if b then x else y)
if-Within cs true x y h k = h
if-Within cs false x y h k = k

sized-Within : (f : ℕ → Field) (deflt : ℕ) (cs : List ℕ) → Within cs (sized f deflt cs)
unfolding Within sized parse_intwidth
sized-Within f deflt cs = length-parse_digits cs 0

read_value-Within : (c : ℕ) (cs : List ℕ) → Within cs (read_value c cs)
unfolding Within read_value
read_value-Within c cs = if-Within cs (c == b'f') _ _ (omega arith) (
    if-Within cs (c == b'd' || c == b'n') _ _ (omega arith) (
      if-Within cs (c == b's') _ _ (sized-Within prefixed 8 cs) (
        if-Within cs (c == b'z') _ _ (omega arith)
          (if-Within cs (c == b'c') _ _ (sized-Within chars 0 cs) tt))))

read_integer-Within : (c : ℕ) (cs : List ℕ) → Within cs (read_integer c cs)
unfolding Within read_integer
read_integer-Within c cs = if-Within cs (c == b'b' || c == b'B') _ _ (omega arith) (
    if-Within cs (c == b'h' || c == b'H') _ _ (omega arith) (
      if-Within cs (c == b'l' || c == b'L') _ _ (omega arith) (
        if-Within cs (c == b'j' || c == b'J' || c == b'T') _ _ (omega arith) (
          if-Within cs (c == b'i' || c == b'I') _ _ (sized-Within (λ n. integer n (c == b'i')) 8 cs)
            (read_value-Within c cs)))))

read_field-Within : (c : ℕ) (cs : List ℕ) → Within cs (read_field c cs)
unfolding Within read_field
read_field-Within c cs = if-Within cs (c == b'<' || c == b'=') _ _ (omega arith) (
    if-Within cs (c == b'>') _ _ (omega arith) (
      if-Within cs (c == b'x') _ _ (omega arith)
        (if-Within cs (c == b'X') _ _ (sized-Within align 0 cs) (read_integer-Within c cs))))

bind-Within {ℓ} :
    {S : Type ℓ} (cs : List ℕ) (o : Option (Field × List ℕ)) (f g : Field × List ℕ → Option S)
    → Within cs o
    → ((r : Field × List ℕ) → length r.1 ≤ length cs → f r ≡ g r)
    → (o >>= f) ≡ (o >>= g)
unfolding Within
bind-Within cs none f g w h = refl
bind-Within cs (some r) f g w h = h r w

module _ {ℓ} {S : Type ℓ} (step : Field → S → Option S) where
  -- For any treatment of the fields, the loop over a format gives the same result for all fuel
  -- that is at least the length of the format.
  each_field-fuel :
      (fuel more : ℕ) (cs : List ℕ) (s : S)
      → length cs ≤ fuel
      → length cs ≤ more
      → each_field step fuel cs s ≡ each_field step more cs s
  unfolding each_field
  each_field-fuel fuel more [] s h k = refl
  each_field-fuel zero more (c ∷ cs) s h k = absurd (omega arith)
  each_field-fuel (suc fuel) zero (c ∷ cs) s h k = absurd (omega arith)
  each_field-fuel (suc fuel) (suc more) (c ∷ cs) s h k =
      bind-Within cs (read_field c cs) _ _ (read_field-Within c cs) (λ r short.
        ap (λ f. step r.0 s >>= f)
          (fun_ext (λ t.
            each_field-fuel fuel more r.1 t (omega (arith, short, h)) (omega (arith, short, k)))))
