-- ===== src/LineInfo.antt =====
-- vm.cpp: the line numbers of a lambda's instructions, `LambdaObj::saveline` and `getline`, a table
-- of differences in bytes with anchors for those that do not fit, and `GlobalVM::growvec`;
-- scmdebug.cpp: `nextline` and `lastinstrline`, which read the table in order.
pub mod Table
mod Tests
pub mod RoundTrip
use dummyscheme.Common.{
  some, zero, suc, [], ◌∷◌, ◌>>=◌, ◌>>◌, guard, ℕ, List, length, get_or, set, replicate, Option,
  ◌^◌, ◌%◌, if◌then◌else◌, leb, ◌++◌, ◌-◌, ltb, ◌==◌, ◌+◌, ◌*◌,
}
use dummyscheme.Common.Int.{ℤ, pos, negsuc, ◌-ℤ◌, ltb_ℤ, ◌+ℤ◌, ◌≤ℤ◌}
use dummyscheme.Fixnum.{abs}

pub record AbsLine : Type 0 where
  pub pc : ℕ
  pub line : ℤ

-- `lines` of length `sizelines`, `abslines` in the order they were added, and `defline`.
pub record LineTable : Type 0 where
  pub lines : List ℕ
  pub abslines : List AbsLine
  pub defline : ℤ

abbrev pub minvec_size : ℕ
minvec_size = 4

-- `size *= 2`; `none` is that it does not fit an `int`.
unfoldable pub doubled : ℕ → Option ℕ
doubled size = do guard (ltb size (2 ^ 30)); some (size * 2)

-- The new size of a vector of `size` elements that is too small for one more behind `ne`.
unfoldable pub wider : ℕ → ℕ → ℕ → Option ℕ
wider size ne limit = do
  twice ← doubled size
  more ← if leb twice (ne + 1) then doubled twice else some twice
  let least = if ltb more minvec_size then minvec_size else more
  some (if leb limit least then limit else least)

-- `none` is that the limit is reached, or that a size does not fit an `int`.
unfoldable pub growvec_size : ℕ → ℕ → ℕ → Option ℕ
growvec_size size ne limit = if leb (ne + 1) size then some size else (do
  guard (ltb size limit)
  least ← wider size ne limit
  guard (leb (ne + 1) least)
  some least)

-- `realloc` fills what it adds with zeros.
unfoldable pub growvec : List ℕ → ℕ → ℕ → Option (List ℕ)
growvec vec ne limit = do
  size ← growvec_size (length vec) ne limit
  some (vec ++ replicate (size - length vec) 0)

-- With so many instructions the bytes of the anchors, 8 each, fit an `int` when their vector grows.
abbrev pub most_lines : ℕ
most_lines = 2 ^ 27

abbrev pub IsLine : ℤ → Type 0
IsLine line = (pos 0 ≤ℤ line) × (line ≤ℤ pos (2 ^ 31 - 1))

abbrev pub int_limit : ℕ
int_limit = 2 ^ 31 - 1

-- `(byte)diff`, and `(signed char)d`.
abbrev pub to_byte : ℤ → ℕ
to_byte (pos n) = n % 256
to_byte (negsuc n) = 255 - n % 256

abbrev pub signed_char : ℕ → ℤ
signed_char d = if ltb d 128 then pos d else negsuc (255 - d)

-- `ABSLINE` and `MLINEDIFF`.
abbrev pub absline : ℤ
absline = negsuc 127

abbrev pub mlinediff : ℕ
mlinediff = 128

unfoldable pub grown : List ℕ → ℕ → Option (List ℕ)
grown lines pc = if leb (length lines) pc then growvec lines pc int_limit else some lines

-- The anchor for a difference that does not fit, and the difference to store.
unfoldable pub anchor_diff : ℕ → ℤ → ℤ → List AbsLine × ℤ
anchor_diff pc line diff =
    if leb mlinediff (abs diff) then (record { pc = pc; line = line } ∷ [], absline) else ([], diff)

unfoldable pub saveline : LineTable → ℕ → ℤ → ℤ → Option LineTable
saveline t pc line preline = do
  lines ← grown t.lines pc
  let (added, diff) = anchor_diff pc line (line -ℤ preline)
  some (record {
    lines = set lines pc (to_byte diff);
    abslines = t.abslines ++ added;
    defline = t.defline;
  })

-- `while (absi < abslines.n && abslines.get(absi).pc < i) absi++`, on the anchors from `absi` on.
unfoldable pub skip_to : List AbsLine → ℕ → List AbsLine
skip_to [] i = []
skip_to (al ∷ als) i = let rest = skip_to als i in if ltb al.pc i then rest else al ∷ als

-- The line of an anchor for `i`, or the line before.
unfoldable pub anchored : List AbsLine → ℕ → ℤ → ℤ
anchored [] i line = line
anchored (al ∷ als) i line = if al.pc == i then al.line else line

-- One entry: the line and the anchors left.
unfoldable pub nextline : ℕ → List AbsLine → ℕ → ℤ → ℤ × List AbsLine
nextline d als i line =
    if d == to_byte absline
    then (anchored (skip_to als i) i line, skip_to als i)
    else (line +ℤ signed_char d, als)

-- The loop of `getline`, from `i` on by the rounds left.
unfoldable pub line_loop : List ℕ → ℕ → ℕ → List AbsLine → ℤ → ℤ
line_loop lines i zero als line = line
line_loop lines i (suc left) als line =
    let (now, rest) = nextline (get_or lines i 0) als i line in
    line_loop lines (suc i) left rest now

unfoldable pub getline : LineTable → ℕ → ℤ
getline t pc =
    if leb (length t.lines) pc then t.defline else line_loop t.lines 0 (suc pc) t.abslines t.defline

-- The loop of `lastinstrline`, for a lambda that is not a chunk.
unfoldable pub max_loop : List ℕ → ℕ → List AbsLine → ℤ → ℤ → ℤ
max_loop [] i als line max = max
max_loop (d ∷ lines) i als line max =
    let (now, rest) = nextline d als i line in
    max_loop lines (suc i) rest now (if ltb_ℤ max now then now else max)

unfoldable pub lastinstrline : LineTable → ℤ
lastinstrline t = max_loop t.lines 0 t.abslines t.defline t.defline

-- The compiler's calls for the instructions from `pc` on, with `prevline` the line of the last one.
unfoldable pub save_all : LineTable → ℕ → ℤ → List ℤ → Option LineTable
save_all t pc prevline [] = some t
save_all t pc prevline (line ∷ later) = do
  t ← saveline t pc line prevline
  save_all t (suc pc) line later
