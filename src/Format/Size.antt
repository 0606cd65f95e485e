-- ===== src/Format/Size.antt =====
-- scmstring.cpp: `string-packsize`.
use dummyscheme.Common.{none, some, ℕ, List, Option, ◌+◌, length}
use dummyscheme.Format.{Field, order, skip, align, integer, real, gap, each_field}

unfoldable pub size_field : Field → ℕ → Option ℕ
size_field (order endian) size = some size
size_field skip size = some (size + 1)
size_field (align op) size = some (size + gap op size)
size_field (integer n sgn) size = some (size + n)
size_field (real n) size = some (size + n)
size_field field size = none

unfoldable pub string_packsize : List ℕ → Option ℕ
string_packsize fmt = each_field size_field (length fmt) fmt 0
