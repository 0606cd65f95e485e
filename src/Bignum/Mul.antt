-- ===== src/Bignum/Mul.antt =====
-- `NumBigObj::mulabs` and `mul` (vm.cpp): schoolbook multiplication in place. The product of two
-- 64-bit limbs is put together from four products of 32-bit halves.
pub mod Word
pub mod Rows
use dummyscheme.Common.{
  ℕ, zero, suc, ◌+◌, ◌-◌, ◌*◌, ◌/◌, ◌%◌, ◌^◌, Bool, ◌||◌, List, [], ◌∷◌, bit_and, half_mod, length,
  u64, word_mod, ltb, ◌==◌, if◌then◌else◌, ◌<<<◌, ◌>>>◌, ◌++◌, replicate,
}
use dummyscheme.Bignum.Add.{limb, above}
use dummyscheme.Bignum.{Sign, plus, minus, NumBig, same_sign, normalize, iszero}

-- `p_low` and `p_high`
pub record Wide : Type 0 where
  pub low : ℕ
  pub high : ℕ

-- `p_low += x; if (p_low < x) p_high += 1;`
unfoldable pub add_low : ℕ → Wide → Wide
add_low x w =
    let low = u64 (w.low + x) in
    record { low = low; high = if ltb low x then u64 (w.high + 1) else w.high }

-- From `p1_p2` on: the four products joined into one of 128 bits.
unfoldable pub join_products : ℕ → ℕ → ℕ → ℕ → Wide
unfolding add_low
join_products p0 p1 p2 p3 =
    let p1_p2 = u64 (p1 + p2) in
    let p1_p2_carry : ℕ = if ltb p1_p2 p1 then 1 else 0 in
    add_low p0
      (record { low = p1_p2 <<< 32; high = u64 (p3 + (p1_p2 >>> 32) + (p1_p2_carry <<< 32)) })

-- The body of the inner loop: `ua * ub + current_dest + carry`.
unfoldable pub mul_word : ℕ → ℕ → ℕ → ℕ → Wide
mul_word ua ub dest carry =
    let ua_lo = bit_and ua (half_mod - 1) in
    let ua_hi = ua >>> 32 in
    let ub_lo = bit_and ub (half_mod - 1) in
    let ub_hi = ub >>> 32 in
    add_low carry (
      add_low dest (
        join_products (u64 (ua_lo * ub_lo)) (u64 (ua_lo * ub_hi)) (u64 (ua_hi * ub_lo))
          (u64 (ua_hi * ub_hi))))

-- `while (carry > 0 && k < res_len)`, over the limbs from `k` on.
unfoldable pub propagate : List ℕ → ℕ → List ℕ
propagate [] carry = []
propagate (d ∷ ds) carry =
    if ltb 0 carry
    then u64 (d + carry) ∷ propagate ds (if ltb (u64 (d + carry)) d then 1 else 0)
    else d ∷ ds

-- One round of the outer loop, over the limbs of the result from `i` on: the inner loop over the
-- limbs of `other`, then the carry. The result is long enough, so the second clause is not met.
unfoldable pub mul_row : ℕ → List ℕ → List ℕ → ℕ → List ℕ
mul_row ua [] ds carry = propagate ds carry
mul_row ua (y ∷ ys) [] carry = []
mul_row ua (y ∷ ys) (d ∷ ds) carry =
    let w = mul_word ua y d carry in w.low ∷ mul_row ua ys ds w.high

-- `if (ua == 0) continue;`
unfoldable pub row : ℕ → List ℕ → List ℕ → List ℕ
row ua ys res = if ua == 0 then res else mul_row ua ys res 0

-- The outer loop, over the limbs of the result from `i` on: a round for `i` leaves those below alone.
unfoldable pub mul_rows : List ℕ → List ℕ → List ℕ → List ℕ
mul_rows [] ys res = res
mul_rows (x ∷ xs) ys res = let r = row x ys res in limb r ∷ mul_rows xs ys (above r)

-- `Sbigzero`, one object, whose sign `numbigdiv` and `numbigmod` overwrite when it is their result.
-- Here it is a new plus zero each time: the value of a zero does not depend on its sign.
abbrev pub big_zero : NumBig
big_zero = record { sign = plus; limbs = 0 ∷ [] }

unfoldable pub mulabs : NumBig → NumBig → NumBig
mulabs a b =
    if iszero a || iszero b
    then big_zero
    else normalize (record {
      sign = plus;
      limbs = mul_rows a.limbs b.limbs (replicate (length a.limbs + length b.limbs) 0);
    })

unfoldable pub mul : NumBig → NumBig → NumBig
mul a b =
    if iszero a || iszero b
    then big_zero
    else record (mulabs a b) { sign = if same_sign a.sign b.sign then plus else minus }
