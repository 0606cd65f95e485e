-- ===== src/Common/Powers.antt =====
-- Powers of 2 at variables.
use native.Mathlib.Nat.{pow-suc, one-le-pow, pow-le-pow_right, suc-add, zero-add}
use Prim.Native.Nat.{ℕ, zero, suc, ◌+◌, ◌*◌, ◌^◌, ◌≤◌}
use mathlib.Core.Path.{◌≡◌, ap, ◌∙◌}
use native.Mathlib.Omega.{arith}
use dummyscheme.Common.{◌∙◌}

pub two-pow-pos : (n : ℕ) → 1 ≤ 2 ^ n
two-pow-pos n = one-le-pow n 2 (omega arith)

pub two-pow-add : (m n : ℕ) → 2 ^ (m + n) ≡ 2 ^ m * 2 ^ n
two-pow-add zero n = ap (λ (t : ℕ). 2 ^ t) (zero-add n) ∙ omega arith
two-pow-add (suc m) n =
    ap (λ (t : ℕ). 2 ^ t) (suc-add m n)
    ∙ omega (
      arith,
      pow-suc 2 (m + n),
      pow-suc 2 m,
      two-pow-add m n,
      ap (λ (t : ℕ). t * 2 ^ n) (pow-suc 2 m),
    )

pub two-pow-suc : (n : ℕ) → 2 ^ suc n ≡ 2 * 2 ^ n
two-pow-suc n = omega (arith, pow-suc 2 n)

pub two-pow_mono : (m n : ℕ) → m ≤ n → 2 ^ m ≤ 2 ^ n
two-pow_mono m n h = pow-le-pow_right (omega arith) h
