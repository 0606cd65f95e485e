-- ===== src/Common/Words.antt =====
-- Unsigned 64-bit words (`scm_uint`): a value is a number below `word_mod`, and what the C++ code
-- computes wraps by `u64`.
use Prim.Native.Nat.{ℕ, ◌*◌, ◌/◌, ◌%◌, ◌^◌}

abbrev pub word_mod : ℕ
word_mod = 2 ^ 64

abbrev pub half_mod : ℕ
half_mod = 2 ^ 32

abbrev pub u64 : ℕ → ℕ
u64 n = n % word_mod

infixl 75 ◌<<<◌ ◌>>>◌
-- `x << k` on a word, and `x >> k`.
abbrev pub ◌<<<◌ : ℕ → ℕ → ℕ
x <<< k = u64 (x * 2 ^ k)

abbrev pub ◌>>>◌ : ℕ → ℕ → ℕ
x >>> k = x / 2 ^ k
