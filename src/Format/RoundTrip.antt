-- ===== src/Format/RoundTrip.antt =====
-- A whole format packed and unpacked.
use dummyscheme.Common.{some, [], ◌∷◌, ℕ, Bool, List, length, ◌≡◌, ◌++◌}
use dummyscheme.Format.{Field, order, skip, align}
use dummyscheme.Format.Pack.{Arg, pack_field}
use dummyscheme.Format.Unpack.{unpack_field}
use dummyscheme.Format.Values.{Fits}
use dummyscheme.Format.Fields.{run}
use dummyscheme.Format.Reals.{Floats}

-- The arguments are those that the fields of a format take, each without loss.
abbrev pub Matches : (F : Floats) → List Field → List (Arg F) → Type 0
Matches F [] [] = Unit
Matches F [] (v ∷ args) = ⊥
Matches F (order endian ∷ later) args = Matches F later args
Matches F (skip ∷ later) args = Matches F later args
Matches F (align op ∷ later) args = Matches F later args
Matches F (field ∷ later) [] = ⊥
Matches F (field ∷ later) (v ∷ args) = Fits F field v × Matches F later args

module _ (F : Floats) where
  -- From one state of either side: `final` is the whole packed string.
  abbrev Runs : List Field → Bool → List ℕ → List (Arg F) → Type 0
  Runs later endian out args =
      (last : Bool) × (final : List ℕ) × (tail : List ℕ) × (final ≡ out ++ tail)
      × (run (pack_field F) later (record { endian = endian; out = out; args = args })
          ≡ some (record { endian = last; out = final; args = [] }))
      × ((s after : List ℕ) (vals : List (Arg F))
          → s ≡ final ++ after
          → run (unpack_field F s) later (record { endian = endian; off = length out; vals = vals })
            ≡ some (record { endian = last; off = length final; vals = vals ++ args }))
