-- ===== src/Interns.antt =====
-- vm.cpp: `Interns`, the table of interned strings and symbols, and `SCM::hash`. A bucket is the
-- chain of its objects; an object has its address, which `eq?` compares, its characters and its
-- hash value. Marking for the garbage collector is left out.
pub mod Invariant
pub mod Resize
mod Tests
pub mod Rehash
pub mod Identity
use dummyscheme.Common.{
  none, some, zero, suc, [], ◌∷◌, true, false, ◌>>=◌, guard, ◌>>◌, ℕ, Bool, List, length, get_or,
  set, ◌^◌, if◌then◌else◌, bit_xor, ◌==◌, Option, ◌%◌, ltb, ◌*◌, ◌&&◌, ◌/◌, leb, ◌+◌, ◌-◌, ◌++◌,
  take, replicate,
}

pub record Sym : Type 0 where
  pub address : ℕ
  pub str : List ℕ
  pub hash : ℕ

-- `bucketlist` of length `blistlen`, `bcount`, the seed of the hash, and the next free address.
pub record Interns : Type 0 where
  pub bucketlist : List (List Sym)
  pub bcount : ℕ
  pub seed : ℕ
  pub fresh : ℕ

abbrev pub uint_mod : ℕ
uint_mod = 2 ^ 32

-- `h >> 2` on an `int`, kept as its 32 bits.
abbrev pub signed_shift : ℕ → ℕ
signed_shift h = if ltb h (2 ^ 31) then h / 4 else (h + 3 * uint_mod) / 4

-- `h ^= ((h<<5) + (h>>2) + c)`
unfoldable pub mix : ℕ → ℕ → ℕ
mix h c = bit_xor h ((h * 32 + signed_shift h + c) % uint_mod)

-- The loop, from the last character to the first.
unfoldable pub mix_all : List ℕ → ℕ → ℕ
mix_all [] h = h
mix_all (c ∷ s) h = mix (mix_all s h) c

unfoldable pub hash : List ℕ → ℕ → ℕ
hash s seed = mix_all s (bit_xor seed (length s))

-- `b->len == n && memcmp(...) == 0`
unfoldable pub same_bytes : List ℕ → List ℕ → Bool
same_bytes [] [] = true
same_bytes [] (b ∷ bs) = false
same_bytes (a ∷ later) [] = false
same_bytes (a ∷ later) (b ∷ bs) = let rest = same_bytes later bs in a == b && rest

-- The walk along a chain.
unfoldable pub chain_find : List Sym → List ℕ → Option Sym
chain_find [] s = none
chain_find (b ∷ chain) s =
    let rest = chain_find chain s in if same_bytes b.str s then some b else rest

abbrev pub blistlen : Interns → ℕ
blistlen t = length t.bucketlist

-- A new object at the head of its chain.
unfoldable pub insert : Interns → ℕ → ℕ → List ℕ → Interns × Sym
insert t h idx s =
    let sym : Sym = record { address = t.fresh; str = s; hash = h } in
    (
      record {
        bucketlist = set t.bucketlist idx (sym ∷ get_or t.bucketlist idx []);
        bcount = suc t.bcount;
        seed = t.seed;
        fresh = suc t.fresh;
      },
      sym,
    )

unfoldable pub intern : Interns → List ℕ → Interns × Sym
intern t s =
    let h = hash s t.seed in
    let idx = h % blistlen t in
    elim (chain_find (get_or t.bucketlist idx []) s) [ some b ↦ (t, b) | none ↦ insert t h idx s ]

-- `hash % newl` in `rehash`, where the hash is an `int`: a negative one has a negative rest, which
-- is out of the table (or 0).
unfoldable pub rehash_index : ℕ → ℕ → Option ℕ
rehash_index h newl =
    if ltb h (2 ^ 31) then some (h % newl) else (guard ((uint_mod - h) % newl == 0) >> some 0)

unfoldable pub rehash_chain : List Sym → List (List Sym) → ℕ → Option (List (List Sym))
rehash_chain [] table newl = some table
rehash_chain (b ∷ chain) table newl = do
  idx ← rehash_index b.hash newl
  rehash_chain chain (set table idx (b ∷ get_or table idx [])) newl

-- From bucket `i` on by the rounds left.
unfoldable pub rehash : ℕ → ℕ → List (List Sym) → ℕ → Option (List (List Sym))
rehash i zero table newl = some table
rehash i (suc left) table newl = do
  table ← rehash_chain (get_or table i []) (set table i []) newl
  rehash (suc i) left table newl

-- `while (bcount >= blistlen) newl *= 2`, with fuel.
unfoldable pub grow : ℕ → ℕ → ℕ → ℕ → Option ℕ
grow zero count len newl = none
grow (suc fuel) count len newl =
    let rest = grow fuel count len (newl * 2) in if leb len count then rest else some newl

-- `while (bcount < newl / 4) newl /= 2`, with fuel.
unfoldable pub shrink : ℕ → ℕ → ℕ → Option ℕ
shrink zero count newl = none
shrink (suc fuel) count newl =
    let rest = shrink fuel count (newl / 2) in if ltb count (newl / 4) then rest else some newl

abbrev pub init_len : ℕ
init_len = 128

-- The first table.
abbrev pub init : ℕ → Interns
init seed = record { bucketlist = replicate init_len []; bcount = 0; seed = seed; fresh = 0 }

abbrev pub max : ℕ → ℕ → ℕ
max a b = if ltb a b then b else a

abbrev pub with_buckets : Interns → List (List Sym) → Interns
with_buckets t table = record {
  bucketlist = table;
  bcount = t.bcount;
  seed = t.seed;
  fresh = t.fresh;
}

-- `realloc(bucketlist, blistlen, sizeof(SymPtr) * newl)`: the old size is passed in chains, not in
-- bytes, and all behind so many bytes is cleared. So the chains from `blistlen / 8` on are lost;
-- a length is `init_len` times a power of two.
unfoldable pub realloc_buckets : List (List Sym) → ℕ → ℕ → List (List Sym)
realloc_buckets table len newl = take newl (take (len / 8) table ++ replicate (newl - len / 8) [])

-- The two branches.
unfoldable pub grow_table : ℕ → Interns → Option Interns
grow_table fuel t = do
  newl ← grow fuel t.bcount (blistlen t) (blistlen t * 2)
  table ← rehash 0 (blistlen t) (realloc_buckets t.bucketlist (blistlen t) newl) newl
  some (with_buckets t table)

unfoldable pub shrink_table : ℕ → Interns → Option Interns
shrink_table fuel t = do
  least ← shrink fuel t.bcount (blistlen t / 2)
  let newl = max least init_len
  table ← rehash 0 (blistlen t) t.bucketlist newl
  some (with_buckets t (realloc_buckets table (blistlen t) newl))

unfoldable pub check_resize : ℕ → Interns → Option Interns
check_resize fuel t =
    if leb (blistlen t) t.bcount
    then grow_table fuel t
    else if ltb t.bcount (blistlen t / 4) && ltb init_len (blistlen t)
    then shrink_table fuel t
    else some t
