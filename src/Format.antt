-- ===== src/Format.antt =====
-- scmstring.cpp: the formats of `string-pack`, `string-unpack` and `string-packsize`: the loop over
-- the characters of a format, which the three share, with the field that each `switch` reads.
-- Characters are their codes.
pub mod Reals
mod Tests
pub mod Length
pub mod RoundTrip
pub mod Values
pub mod Fields
pub mod Pack
pub mod Unpack
pub mod Size
use dummyscheme.Common.{
  none, some, zero, suc, [], ◌∷◌, true, false, ◌>>=◌, ℕ, Bool, List, Option, if◌then◌else◌, ◌==◌,
  ltb, ◌||◌, ◌%◌, ◌-◌,
}
use dummyscheme.Pack.{parse_intwidth}

-- The fields that the cases of the `switch` stand for.
pub data Field : Type 0 where
  order : Bool → Field
  skip : Field
  align : ℕ → Field
  integer : ℕ → Bool → Field
  real : ℕ → Field
  prefixed : ℕ → Field
  terminated : Field
  chars : ℕ → Field

-- A field with the width after its character, or the default.
unfoldable pub sized : (ℕ → Field) → ℕ → List ℕ → Option (Field × List ℕ)
sized field deflt cs = let (n, rest) = parse_intwidth cs deflt in some (field n, rest)

unfoldable pub read_value : ℕ → List ℕ → Option (Field × List ℕ)
read_value c cs =
    if c == b'f'
    then some (real 4, cs)
    else if c == b'd' || c == b'n'
    then some (real 8, cs)
    else if c == b's'
    then sized prefixed 8 cs
    else if c == b'z'
    then some (terminated, cs)
    else if c == b'c'
    then sized chars 0 cs
    else none

unfoldable pub read_integer : ℕ → List ℕ → Option (Field × List ℕ)
read_integer c cs =
    if c == b'b' || c == b'B'
    then some (integer 1 (c == b'b'), cs)
    else if c == b'h' || c == b'H'
    then some (integer 2 (c == b'h'), cs)
    else if c == b'l' || c == b'L'
    then some (integer 4 (c == b'l'), cs)
    else if c == b'j' || c == b'J' || c == b'T'
    then some (integer 8 (c == b'j'), cs)
    else if c == b'i' || c == b'I'
    then sized (λ n. integer n (c == b'i')) 8 cs
    else read_value c cs

-- The field of a character and the characters after it; `none` is the invalid format option.
unfoldable pub read_field : ℕ → List ℕ → Option (Field × List ℕ)
read_field c cs =
    if c == b'<' || c == b'='
    then some (order false, cs)
    else if c == b'>'
    then some (order true, cs)
    else if c == b'x'
    then some (skip, cs)
    else if c == b'X'
    then sized align 0 cs
    else read_integer c cs

-- The loop over the format: `step` is what the cases of a `switch` do to the state. Each round
-- takes one character at least, so that the length of the format is enough fuel.
unfoldable pub each_field {ℓ} : {S : Type ℓ} → (Field → S → Option S) → ℕ → List ℕ → S → Option S
each_field step fuel [] s = some s
each_field step zero (c ∷ cs) s = none
each_field step (suc fuel) (c ∷ cs) s = do
  (field, rest) ← read_field c cs
  s ← step field s
  each_field step fuel rest s

-- `int rem = at % op; if (rem) ... op - rem`
unfoldable pub gap : ℕ → ℕ → ℕ
gap op at = if ltb 1 op then (if at % op == 0 then 0 else op - at % op) else 0
