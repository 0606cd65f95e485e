-- ===== src/Common/Bits.antt =====
-- `|` and `&` on numbers: one equation for the lowest digit each, from which a disjoint `|` is a
-- sum, `&` with a low mask is a remainder, and `|` of one clear bit adds its weight.
use Prim.Native.Nat.{
  ℕ, zero, suc, ◌+◌, ◌-◌, ◌*◌, ◌/◌, ◌%◌, ◌^◌, ◌≤◌, ◌<◌, min, max, bit_and, bit_or, digits, bitwise,
  bit_and-bitwise, bit_or-bitwise,
}
use mathlib.Core.Path.{◌≡◌, refl, ap, sym, ◌∙◌}
use native.Mathlib.Nat.{pow-suc, pow-succ', one-le-pow, div-div-eq-div-mul, mul-div_cancel}
use native.Mathlib.Omega.{arith}

-- The operations recurse on digits with the first number as fuel. Fuel to spare changes nothing.
module _ (skip : ℕ → ℕ) (join : ℕ → ℕ → ℕ) where
  one_spare :
      (fuel x y : ℕ) → x ≤ fuel → digits skip join (suc fuel) x y ≡ digits skip join fuel x y
  one_spare zero zero y le = refl
  one_spare (suc fuel) zero y le = refl
  one_spare zero (suc x) y le = absurd (omega arith)
  one_spare (suc fuel) (suc x) y le = rw (one_spare fuel (suc x / 2) (y / 2) (omega arith))

  all_spare :
      (spare fuel x y : ℕ)
      → x ≤ fuel
      → digits skip join (fuel + spare) x y ≡ digits skip join fuel x y
  all_spare zero fuel x y le = ap (λ total. digits skip join total x y) {y = fuel} (omega arith)
  all_spare (suc spare) fuel x y le =
      ap (λ total. digits skip join total x y) {y = suc (fuel + spare)} (omega arith)
      ∙ one_spare (fuel + spare) x y (omega arith)
      ∙ all_spare spare fuel x y le

  lowest_digit :
      (x y : ℕ)
      → join (suc x % 2) (y % 2) + 2 * bitwise skip join (suc x / 2) (y / 2)
        ≡ bitwise skip join (suc x) y
  lowest_digit x y =
      let half = suc x / 2 in
      let spare = all_spare (x - half) half half (y / 2) (omega arith) in
      let whole : half + (x - half) ≡ x = omega arith in
      omega (arith, ap (λ fuel. digits skip join fuel half (y / 2)) whole, spare)

pub bit_and_step : (x y : ℕ) → bit_and x y ≡ min (x % 2) (y % 2) + 2 * bit_and (x / 2) (y / 2)
bit_and_step zero y = simp bit_and-bitwise (omega arith)
bit_and_step (suc x) y = simp bit_and-bitwise (sym (lowest_digit (λ t. 0) min x y))

pub bit_or_step : (x y : ℕ) → bit_or x y ≡ max (x % 2) (y % 2) + 2 * bit_or (x / 2) (y / 2)
bit_or_step zero y = simp bit_or-bitwise (omega arith)
bit_or_step (suc x) y = simp bit_or-bitwise (sym (lowest_digit (λ t. t) max x y))

zero-bit_or : (y : ℕ) → bit_or 0 y ≡ y
zero-bit_or y = bit_or-bitwise 0 y

-- Zero on the right, by the same recursion.
zero_right : (bound x : ℕ) → x < bound → (bit_or x 0 ≡ x) × (bit_and x 0 ≡ 0)
zero_right zero x lt = absurd (omega arith)
zero_right (suc bound) zero lt = (refl, refl)
zero_right (suc bound) (suc x) lt =
    let rest = zero_right bound (suc x / 2) (omega arith) in
    (omega (arith, bit_or_step (suc x) 0, rest), omega (arith, bit_and_step (suc x) 0, rest))

pub bit_or-zero : (x : ℕ) → bit_or x 0 ≡ x
bit_or-zero x = (zero_right (suc x) x (omega arith)).0

pub bit_and-zero : (x : ℕ) → bit_and x 0 ≡ 0
bit_and-zero x = (zero_right (suc x) x (omega arith)).1

-- `(q << k) | r` is a sum when `r` fits in `k` bits.
pub bit_or_disjoint : (k q r : ℕ) → r < 2 ^ k → bit_or (q * 2 ^ k) r ≡ q * 2 ^ k + r
bit_or_disjoint zero q r h = ground (arith, bit_or-zero q)
bit_or_disjoint (suc k) q r h =
    let double : q * 2 ^ suc k ≡ 2 * (q * 2 ^ k) =
      omega (arith, ap (λ (t : ℕ). q * t) (pow-suc 2 k)) in
    ground (arith, double, bit_or_step (q * 2 ^ suc k) r, bit_or_disjoint k q (r / 2) (omega arith))

-- `r | (q << k)`, the other way round.
pub disjoint_bit_or : (k q r : ℕ) → r < 2 ^ k → bit_or r (q * 2 ^ k) ≡ q * 2 ^ k + r
disjoint_bit_or zero q zero h = ground (arith, zero-bit_or q)
disjoint_bit_or zero q (suc r) h = absurd (omega arith)
disjoint_bit_or (suc k) q r h =
    let double : q * 2 ^ suc k ≡ 2 * (q * 2 ^ k) =
      omega (arith, ap (λ (t : ℕ). q * t) (pow-suc 2 k)) in
    ground (arith, double, bit_or_step r (q * 2 ^ suc k), disjoint_bit_or k q (r / 2) (omega arith))

-- Setting a clear bit adds its weight.
pub bit_or_clear : (k a : ℕ) → a / 2 ^ k % 2 ≡ 0 → bit_or a (2 ^ k) ≡ a + 2 ^ k
bit_or_clear zero a h = ground (arith, bit_or_step a 1, bit_or-zero (a / 2))
bit_or_clear (suc k) a h =
    let halved : a / 2 / 2 ^ k % 2 ≡ 0 = rw (div-div-eq-div-mul, ← pow-succ') h in
    ground (
      arith,
      pow-suc 2 k,
      bit_or_step a (2 ^ suc k),
      bit_or_clear k (a / 2) halved,
      mul-div_cancel (2 ^ k) {n = 2} (omega arith),
    )

-- `a & (2 ^ k - 1)` is the remainder by `2 ^ k`.
pub bit_and_low : (k q r : ℕ) → r < 2 ^ k → bit_and (q * 2 ^ k + r) (2 ^ k - 1) ≡ r
bit_and_low zero q r h = ground (arith, bit_and-zero (q * 1 + r))
bit_and_low (suc k) q r h =
    let double : q * 2 ^ suc k ≡ 2 * (q * 2 ^ k) =
      omega (arith, ap (λ (t : ℕ). q * t) (pow-suc 2 k)) in
    ground (
      arith,
      double,
      pow-suc 2 k,
      one-le-pow k 2,
      bit_and_step (q * 2 ^ suc k + r) (2 ^ suc k - 1),
      bit_and_low k q (r / 2) (omega arith),
    )

pub bit_and_mask : (k a : ℕ) → bit_and a (2 ^ k - 1) ≡ a % 2 ^ k
bit_and_mask k a = ground (arith, one-le-pow k 2, bit_and_low k (a / 2 ^ k) (a % 2 ^ k))

-- One bit picked out.
pub bit_and_bit : (k a : ℕ) → bit_and a (2 ^ k) ≡ a / 2 ^ k % 2 * 2 ^ k
bit_and_bit zero a = ground (arith, bit_and_step a 1, bit_and-zero (a / 2))
bit_and_bit (suc k) a =
    let halved : a / 2 / 2 ^ k ≡ a / 2 ^ suc k = rw (div-div-eq-div-mul, ← pow-succ') in
    let bit = a / 2 ^ suc k % 2 in
    let half : bit_and (a / 2) (2 ^ k) ≡ bit * 2 ^ k = rw (← halved) (bit_and_bit k (a / 2)) in
    let even = mul-div_cancel (2 ^ k) {n = 2} (omega arith) in
    let double = pow-suc 2 k in
    let halves : 2 ^ suc k / 2 ≡ 2 ^ k = omega (arith, even, double) in
    let last : 2 ^ suc k % 2 ≡ 0 = omega (arith, double) in
    rw (bit_and_step, halves, last, half) (omega (arith, ap (λ (t : ℕ). bit * t) double))
