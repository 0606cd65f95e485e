-- ===== src/Bytevector/Access.antt =====
-- `bytevector-u8-ref` after `bytevector-u8-set!`, and indices out of range.
use dummyscheme.Common.{
  none, some, zero, suc, ℕ, List, ◌<◌, ◌^◌, length, ◌-◌, ◌≡◌, get_elem?, arith, ◌≢◌, set, ◌⊎◌, ◌∷◌,
  length-set, [], get_elem?-set_self, refl, get_elem?-set_ne,
}
use dummyscheme.Common.Int.{pos, negsuc, ℤ, ◌≤ℤ◌}
use dummyscheme.Bytevector.{byteval, element_index, bytevector_u8_set, bytevector_u8_ref, int32}
use native.Mathlib.Nat.{mod-eq_of_lt}

pub int32-pos : (i : ℕ) → i < 2 ^ 31 → int32 (pos i) ≡ pos i
int32-pos i h = let plain = mod-eq_of_lt {n = i} {m = 2 ^ 32} (omega arith) in ground (arith, plain)

pub int32_lem : (k : ℤ) → (negsuc (2 ^ 31 - 1) ≤ℤ k) → (k ≤ℤ pos (2 ^ 31 - 1)) → int32 k ≡ k
int32_lem (pos i) l h = int32-pos i (omega (arith, h))
int32_lem (negsuc i) l h = ground arith

byteval-pos : (b : ℕ) → b < 256 → byteval (pos b) ≡ some b
unfolding byteval
byteval-pos b h = rw (int32-pos b (omega arith)) (ground arith)

element_index-pos : (i len : ℕ) → i < len → i < 2 ^ 31 → element_index (pos i) len ≡ some i
unfolding element_index
element_index-pos i len h s = rw (int32-pos i s) (ground arith)

pub elem : (bv : List ℕ) (i : ℕ) → i < length bv → (v : ℕ) × (get_elem? bv i ≡ some v)
elem [] i h = absurd (omega arith)
elem (x ∷ xs) zero h = (x, refl)
elem (x ∷ xs) (suc i) h = elem xs i (omega arith)

-- For a bytevector shorter than 2 ^ 31, indices within it and a byte, `bytevector-u8-set!`
-- succeeds, `bytevector-u8-ref` at its index then gives the byte, and at any other index what it
-- gave before.
bytevector_u8_ref-bytevector_u8_set :
    (bv : List ℕ) (i j b : ℕ)
    → length bv < 2 ^ 31
    → i < length bv
    → j < length bv
    → b < 256
    → (r : List ℕ) × (bytevector_u8_set bv (pos i) (pos b) ≡ some r)
      × (bytevector_u8_ref r (pos i) ≡ some b)
      × (i ≢ j → bytevector_u8_ref r (pos j) ≡ bytevector_u8_ref bv (pos j))
unfolding bytevector_u8_set bytevector_u8_ref
bytevector_u8_ref-bytevector_u8_set bv i j b small hi hj hb =
    let (v, old) = elem bv i hi in
    (
      set bv i b,
      rw (element_index-pos i (length bv) hi (omega arith), byteval-pos b hb),
      rw (length-set, element_index-pos i (length bv) hi (omega arith))
          (get_elem?-set_self bv i v b old),
      λ ne.
          rw (length-set, element_index-pos j (length bv) hj (omega arith))
            (get_elem?-set_ne bv i j b ne),
    )

-- For an index that fits an `int` and is negative or not below the length, `bytevector-u8-ref` is
-- an error.
bytevector_u8_ref-eq-none :
    (bv : List ℕ) (k : ℤ)
    → negsuc (2 ^ 31 - 1) ≤ℤ k
    → k ≤ℤ pos (2 ^ 31 - 1)
    → (k ≤ℤ negsuc 0) ⊎ (pos (length bv) ≤ℤ k)
    → bytevector_u8_ref bv k ≡ none
unfolding bytevector_u8_ref element_index
bytevector_u8_ref-eq-none bv k l h out = rw (int32_lem k l h) (ground (arith, out))
