-- ===== src/Common/Signed.antt =====
-- Two's complement: `(scm_uint)x` and `(scm_int)u` on 64 bits.
use Prim.Native.Nat.{ℕ, suc, ◌-◌, ◌^◌}
use dummyscheme.Common.Words.{word_mod}
use dummyscheme.Common.Tests.{ltb, if◌then◌else◌}
use dummyscheme.Common.Int.{ℤ, pos, negsuc}

abbrev pub to_word : ℤ → ℕ
to_word (pos n) = n
to_word (negsuc n) = word_mod - suc n

abbrev pub to_signed : ℕ → ℤ
to_signed u = if ltb u (2 ^ 63) then pos u else negsuc (word_mod - 1 - u)

-- `~u`
abbrev pub complement : ℕ → ℕ
complement u = word_mod - 1 - u
