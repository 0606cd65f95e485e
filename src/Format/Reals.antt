-- ===== src/Format/Reals.antt =====
-- The machine's floating-point numbers, which the library stays independent of, and the bytes of
-- one in a packed string: `packdouble` and `loaddouble`.
use dummyscheme.Common.{
  zero, suc, [], ◌∷◌, true, false, ℕ, Bool, List, get_or, if◌then◌else◌, length, set, ◌/◌, ◌≡◌, ◌-◌,
  refl, arith, ◌⊎◌, ◌∙◌, ap, inl, length-set, inr,
}
use dummyscheme.Common.Int.{ℤ}

-- `double` with `memcpy` of its 4 bytes (as a `float`) or 8 bytes, lowest first, in both directions,
-- and the conversion of an integer.
pub record Floats : Type 1 where
  pub Double : Type 0
  pub to_bytes : ℕ → Double → List ℕ
  pub of_bytes : ℕ → List ℕ → Double
  pub of_int : ℤ → Double

-- `for (int k = 0; k < n / 2; k++)`, from `k` on by the rounds left: swap `tmp[k]` and
-- `tmp[n - 1 - k]`.
unfoldable pub swap_ends : List ℕ → ℕ → ℕ → ℕ → List ℕ
swap_ends tmp n k zero = tmp
swap_ends tmp n k (suc left) =
    let t = get_or tmp k 0 in
    swap_ends (set (set tmp k (get_or tmp (n - 1 - k) 0)) (n - 1 - k) t) n (suc k) left

unfoldable pub byte_order : List ℕ → ℕ → Bool → List ℕ
byte_order tmp n endian = if endian then swap_ends tmp n 0 (n / 2) else tmp

unfoldable pub packdouble : (F : Floats) → F.Double → ℕ → Bool → List ℕ
packdouble F f n endian = byte_order (F.to_bytes n f) n endian

unfoldable pub loaddouble : (F : Floats) → List ℕ → ℕ → Bool → F.Double
loaddouble F s n endian = F.of_bytes n (byte_order s n endian)

four : (tmp : List ℕ) → length tmp ≡ 4 → byte_order (byte_order tmp 4 true) 4 true ≡ tmp
unfolding byte_order swap_ends
four (a ∷ b ∷ c ∷ d ∷ []) h = refl
four _ h = absurd (omega (arith, h))

eight : (tmp : List ℕ) → length tmp ≡ 8 → byte_order (byte_order tmp 8 true) 8 true ≡ tmp
unfolding byte_order swap_ends
eight (a ∷ b ∷ c ∷ d ∷ e ∷ f ∷ g ∷ h ∷ []) l = refl
eight _ l = absurd (omega (arith, l))

-- The widths of a `float` and of a `double`.
abbrev pub IsFloatWidth : ℕ → Type 0
IsFloatWidth n = (n ≡ 4) ⊎ (n ≡ 8)

pub byte_order-byte_order :
    (tmp : List ℕ) (n : ℕ) (endian : Bool)
    → IsFloatWidth n
    → length tmp ≡ n
    → byte_order (byte_order tmp n endian) n endian ≡ tmp
unfolding byte_order
byte_order-byte_order tmp n false w h = refl
byte_order-byte_order tmp n true (inl w) h = rw w (four tmp (h ∙ w))
byte_order-byte_order tmp n true (inr w) h = rw w (eight tmp (h ∙ w))

length-swap_ends : (tmp : List ℕ) (n k left : ℕ) → length (swap_ends tmp n k left) ≡ length tmp
unfolding swap_ends
length-swap_ends tmp n k zero = refl
length-swap_ends tmp n k (suc left) =
    length-swap_ends (set (set tmp k (get_or tmp (n - 1 - k) 0)) (n - 1 - k) (get_or tmp k 0)) n
      (suc k) left
    ∙ length-set (set tmp k (get_or tmp (n - 1 - k) 0)) (n - 1 - k) (get_or tmp k 0)
    ∙ length-set tmp k (get_or tmp (n - 1 - k) 0)

pub length-packdouble :
    (F : Floats) (f : F.Double) (n : ℕ) (endian : Bool)
    → length (F.to_bytes n f) ≡ n
    → length (packdouble F f n endian) ≡ n
unfolding packdouble byte_order
length-packdouble F f n false h = h
length-packdouble F f n true h = length-swap_ends (F.to_bytes n f) n 0 (n / 2) ∙ h

pub loaddouble-packdouble :
    (F : Floats) (f : F.Double) (n : ℕ) (endian : Bool)
    → IsFloatWidth n
    → length (F.to_bytes n f) ≡ n
    → F.of_bytes n (F.to_bytes n f) ≡ f
    → loaddouble F (packdouble F f n endian) n endian ≡ f
unfolding packdouble loaddouble
loaddouble-packdouble F f n endian w h back =
    ap (F.of_bytes n) (byte_order-byte_order (F.to_bytes n f) n endian w h) ∙ back
