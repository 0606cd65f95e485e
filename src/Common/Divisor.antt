-- ===== src/Common/Divisor.antt =====
-- Divisibility and greatest common divisors, and the step of Euclid's algorithm.
use Prim.Native.Nat.{ℕ, ◌+◌, ◌-◌, ◌*◌}
use mathlib.Core.Path.{◌≡◌, ap, ◌∙◌}
use native.Mathlib.Omega.{arith}
use native.Mathlib.Nat.{mul-sub}

abbrev pub Factor : ℕ → ℕ → Type 0
Factor d n = (k : ℕ) × (d * k ≡ n)

-- `g` divides both numbers, and each common divisor divides `g`.
pub record IsGcd (g a b : ℕ) : Type 0 where
  pub left : Factor g a
  pub right : Factor g b
  pub greatest : (d : ℕ) → Factor d a → Factor d b → Factor d g

Factor-combine : (d q b r : ℕ) → Factor d b → Factor d r → Factor d (q * b + r)
Factor-combine d q b r (j, eb) (k, er) = (q * j + k, omega (arith, ap (λ (t : ℕ). q * t) eb, er))

Factor-rest : (d q b r a : ℕ) → q * b + r ≡ a → Factor d a → Factor d b → Factor d r
Factor-rest d q b r a e (j, ea) (k, eb) =
    (j - q * k, mul-sub d j (q * k) ∙ omega (arith, e, ea, ap (λ (t : ℕ). q * t) eb))

-- `gcd a b = gcd b r` where `r` is what is left of `a` after a multiple of `b`.
pub IsGcd-step : (g q a b r : ℕ) → q * b + r ≡ a → IsGcd g b r → IsGcd g a b
IsGcd-step g q a b r e h = record {
  left = let f = Factor-combine g q b r h.left h.right in (f.0, f.1 ∙ e);
  right = h.left;
  greatest = λ d fa fb. h.greatest d fb (Factor-rest d q b r a e fa fb);
}

pub IsGcd-zero : (a : ℕ) → IsGcd a a 0
IsGcd-zero a = record {
  left = (1, omega arith);
  right = (0, omega arith);
  greatest = λ d fa fb. fa;
}
