-- ===== src/Bignum/Shift.antt =====
-- `NumBigObj::bitlength` (vm.cpp), and `numbigshlabs`, `numbigshr1absinline` and
-- `numbigsetbitinline` (scmmath.cpp): the bit operations that long division is made of.
pub mod Left
pub mod Right
pub mod Length
pub mod SetBit
use dummyscheme.Common.{
  ℕ, zero, suc, ◌+◌, ◌-◌, ◌*◌, ◌/◌, ◌%◌, ◌^◌, ◌&&◌, List, [], ◌∷◌, ◌++◌, replicate, length, set,
  get_or, bit_and, bit_or, ltb, ◌==◌, if◌then◌else◌, ◌<<<◌, ◌>>>◌,
}
use dummyscheme.Bignum.{NumBig, normalize, copy}

-- `data[len - 1]`
pub top_limb : List ℕ → ℕ
top_limb [] = 0
top_limb (x ∷ []) = x
top_limb (x ∷ y ∷ r) = top_limb (y ∷ r)

-- `while (top_limb > 0) { bits++; top_limb >>= 1; }`, with fuel: 64 rounds empty a limb.
pub count_bits : ℕ → ℕ → ℕ → ℕ
count_bits zero limb bits = bits
count_bits (suc fuel) limb bits =
    let rest = count_bits fuel (limb >>> 1) (bits + 1) in if ltb 0 limb then rest else bits

unfoldable pub bitlength : NumBig → ℕ
unfolding top_limb count_bits
bitlength a =
    if length a.limbs == 1 && top_limb a.limbs == 0
    then 0
    else count_bits 64 (top_limb a.limbs) ((length a.limbs - 1) * 64)

-- The loop of `numbigshlabs` from an index on, with the carry into it; `bits` is `bit_shifts`.
-- The result has one limb more if that is not 0.
pub shl_limbs : ℕ → List ℕ → ℕ → List ℕ
shl_limbs bits [] carry = if ltb 0 bits then (if ltb 0 carry then carry else 0) ∷ [] else []
shl_limbs bits (x ∷ xs) carry =
    (if bits == 0 then x else bit_or (x <<< bits) carry)
    ∷ shl_limbs bits xs (if bits == 0 then carry else x >>> (64 - bits))

unfoldable pub numbigshlabs : NumBig → ℕ → NumBig
unfolding shl_limbs
numbigshlabs a shift_bits =
    if shift_bits == 0
    then copy a
    else normalize (record {
      sign = a.sign;
      limbs = replicate (shift_bits / 64) 0 ++ shl_limbs (shift_bits % 64) a.limbs 0;
    })

-- The loop of `numbigshr1absinline`, which runs from the top: the limbs shifted, and the bit that
-- is carried into the limb below.
pub shr1_limbs : List ℕ → List ℕ × ℕ
shr1_limbs [] = ([], 0)
shr1_limbs (x ∷ xs) =
    let (ys, carry) = shr1_limbs xs in (bit_or (x >>> 1) (carry <<< 63) ∷ ys, bit_and x 1)

unfoldable pub numbigshr1absinline : NumBig → NumBig
unfolding shr1_limbs
numbigshr1absinline a = normalize (record a { limbs = (shr1_limbs a.limbs).0 })

-- `a->data[limb_idx] |= (1ULL << bit_off)`
unfoldable pub numbigsetbitinline : NumBig → ℕ → NumBig
numbigsetbitinline a bit_idx =
    let limb_idx = bit_idx / 64 in
    let bit_off = bit_idx % 64 in
    record a { limbs = set a.limbs limb_idx (bit_or (get_or a.limbs limb_idx 0) (1 <<< bit_off)) }
