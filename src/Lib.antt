-- ===== src/Lib.antt =====
-- A verification library for dummyscheme, an interpreter for Scheme in C++.
--
-- The parts of the program. vm.cpp and vm.h hold the values, the virtual machine, the garbage
-- collector and the arbitrary-precision integers (`NumBigObj`); scmcompiler.cpp compiles to the
-- machine's instructions; scmmath.cpp has the numeric procedures, scmstring.cpp, scmvector.cpp,
-- scmtable.cpp and scmbasic.cpp those on strings, vectors, hash tables and lists. The numeric
-- tower is modelled here from the limbs up: a fixnum operation that overflows passes both
-- operands to the bignums (`numbigfromi`), and a bignum result that fits is stored as a fixnum
-- again (`bigsetvt`).
--
-- The files.
-- Common: the library names shared by all, Boolean tests, lists by native numbers, 64-bit words
--   (`scm_uint`), two's complement, the laws of the bit operations, integers.
-- Bignum: vm.h `struct NumBigObj`: a sign and limbs, the lowest first, as in `data[0 .. len)`.
--   Bignum/Add: `addabs`, `subabs`, `add`, `sub` (vm.cpp). Bignum/Mul: `mulabs`, `mul` (vm.cpp).
--   Bignum/Shift: `bitlength` (vm.cpp), `numbigshlabs`, `numbigshr1absinline`,
--   `numbigsetbitinline` (scmmath.cpp). Bignum/Div: `numbigdivabs` (scmmath.cpp), `numbigdiv`,
--   `numbigmod` (vm.cpp), `gcd` (scmmath.cpp). Bignum/Decimal: `div128by64`, `tostr` (vm.cpp),
--   `bigfromstr` (scmmath.cpp).
-- Fixnum: scmmath.cpp `numaddtoverflow`, `numsubtoverflow`, `nummultooverflow`, `gcd`, `lcm`,
--   `exact_round`.
-- Exact: scmmath.cpp `numbigfromi`, `bigsetvt`, and the integer cases of `numadd`,
--   `numsubtract`, `nummultiply`, `quotient`, `modulo`, `remainder`.
-- Bitwise: scmmath.cpp `bitop_ash` and the bitwise procedures, the random number generator.
-- Pack: scmstring.cpp `packint`, `loaduint`, `signext`, `parse_intwidth`.
-- Format: scmstring.cpp `string-pack`, `string-unpack`, `string-packsize`, which share the loop
--   over a format: `each_field` reads a field of it in each round and `pack_field`,
--   `unpack_field` and `size_field` are the cases of the three. Format/Reals: `packdouble`,
--   `loaddouble`.
-- Strings: scmstring.cpp, the procedures on strings and characters. Strings/Compare: the
--   comparisons.
-- Interns: vm.cpp `Interns`, the table of symbols and short strings, and `SCM::hash`.
-- HashTable: scmtable.cpp `numuse`, `computesizes`, the sizes of a table's parts. HashTable/Nodes:
--   `mainposition`, `nodeindex`, `getfreepos`, `insertkey`, the hash part. HashTable/Access: `get`,
--   `set`, `remove`, `resize`, `rehash`, for a table without a metatable; its child Traverse:
--   `next`, the iteration. HashTable/Keys: `gethash`, `keyeq` and vm.cpp `eqp`, which fill the
--   interface `Keys` that the others use. HashTable/Best: what the sizes are best for.
-- Winds: vm.cpp `calldynamicwind`, `dywindadvance`, `unwinddywindchain`, `enterdywindchain` and the
--   start of a continuation in `callproc`: the chain of `dynamic-wind`. The frames that a
--   continuation brings back are not part of it.
-- LineInfo: vm.cpp `saveline`, `getline`, `growvec`; scmdebug.cpp `nextline`, `lastinstrline`;
--   scmcompiler.cpp `putcode`.
-- Bytevector: scmvector.cpp, the procedures on bytevectors.
-- ListLength: vm.cpp `thlength` and `listp`, on a heap of pairs.
-- ListAccess: scmbasic.cpp `list-ref`, `list-tail` and `reverse`, on the same heap.
-- ListOps: vm.cpp `reverselist`, `append` and `lastappend` in place, on the heap of ListLength.
-- In each part the parent file has the definitions and its children the proofs, and Tests the
-- concrete examples.
--
-- Conventions. A failed assertion or a reported error is `none`. A word is a number below 2 ^ 64,
-- and what the C++ code computes on words wraps by `u64`. A fixnum is an integer, with the
-- hypothesis that it is in range where that matters. An object that the code changes in place is
-- a value of the model, but for `sub`, which changes an operand that may be aliased, and for the
-- objects of `dynamic-wind` and pairs, which are shared: these work on a store.
--
-- Fuel. `bitlength` and `bit_length` take 64 rounds, the bits of a word. `tostr` takes 64 rounds
-- for each limb, since each round divides by more than 2. `log2i` takes 32 rounds, the bits of an
-- `int`. Euclid's loops take more rounds than the second number, which gets smaller in each.
-- `thlength`, `reverselist`, `append` and `reverse` take their fuel as an argument; more rounds
-- than pairs are enough for a proper list.
-- The walks along a chain of a table take as many rounds as there are nodes. The fuel of `set`
-- bounds how deep a rehash calls `set` again, and 2 is enough: the calls that a rehash makes find
-- room.
-- A traversal, the loop of a caller of `next`, takes one more round than there are slots and
-- nodes.
-- The loops that unwind and enter a chain of `dynamic-wind` take one more round than there are
-- objects, and the search in a chain as many rounds as there are objects.
-- The loop over a format takes as many rounds as the format has characters. `checkResize` takes
-- its fuel as an argument: as many rounds as the table has chains are enough to shrink it, and
-- none are enough to make it grow. All other loops are structural recursion.
--
-- Parameters. The bytes of a machine real in a packed string and the conversion of an integer to
-- a real are the record `Floats` of Format/Reals; a theorem on reals asks that the bytes have the
-- width of the field and give the real back.
-- What a thunk of `dynamic-wind` does to the rest of the machine is the parameter `run` of Winds;
-- that a thunk calls a continuation itself, while it runs for a jump, is left out.
--
-- The keys of a table are the record `Keys` of HashTable/Nodes, whose laws HashTable/Keys proves
-- of the program's keys: for fixnums that fit an `int` (the table cuts greater ones to 32 bits),
-- constants, characters, raw pointers, and objects compared by address or by characters. That the
-- characters of a string key do not change after its hash is stored is a hypothesis on the
-- `hash` fields, since `string-set!` does not reset them.
--
-- Not modelled: the arithmetic of reals, ratios and complex numbers (machine floating point, or
-- built on it by the conversions), the type checks of the procedures' arguments, metatables, the
-- garbage collector with its marks and sweeps, the virtual machine, the compiler, ports and the
-- debugger. Signed overflow in C++ is undefined: the definitions compute exactly there, and a
-- comment at the definition or a hypothesis of the theorem says for which arguments; where the
-- program stops, as it does at a division that overflows, the result is `none`.
pub mod Common
pub mod Bignum
pub mod Fixnum
pub mod Exact
pub mod Bitwise
pub mod Pack
pub mod Bytevector
pub mod ListAccess
pub mod ListLength
pub mod ListOps
pub mod Format
pub mod Interns
pub mod Strings
pub mod LineInfo
pub mod HashTable
pub mod Winds
