-- ===== src/HashTable/Keys/Laws.antt =====
-- `keyeq` is an equivalence that `gethash` respects, on the keys that `is_key` describes.
use mathlib.Core.Path.{subst}
use dummyscheme.Common.{
  none, some, ℕ, List, true, ◌==◌, ◌≡◌, refl, sym, ap, ◌∙◌, inl, inr, Bool-cases, ==→eq, some_inj,
}
use dummyscheme.Common.Int.{ℤ}
use dummyscheme.Bytevector.{int32}
use dummyscheme.Bytevector.Access.{int32-pos}
use dummyscheme.HashTable.Keys.{ValueT, same_int, is_key, keyeq, gethash, vt_num_integer}
use dummyscheme.HashTable.Keys.Same.{
  fixnum, gethash-Same, int32_idem, keyeq-Same, Same-keyeq, Same-refl, Same-symm, Same-trans,
  fixnum-Same, Same-of, same_int_refl, same_int_sound, IsCached,
}
use dummyscheme.HashTable.Nodes.{Keys}

-- When each `hash` field is negative or the hash of the characters that its object has, two keys
-- that `keyeq` takes for equal, such as two strings of the same characters, have the same hash;
-- numbers other than fixnums are left out.
pub gethash-keyeq :
    (chars : ℕ → List ℕ) (field : ℕ → ℤ) (seed : ℕ) (x y : ValueT)
    → IsCached chars field seed
    → keyeq chars x y ≡ true
    → gethash chars field seed x ≡ gethash chars field seed y
gethash-keyeq chars field seed x y cached e =
    gethash-Same chars field seed cached x y (keyeq-Same chars x y e)

-- The keys, with the interface of the table.
abbrev pub KeyT : Type 0
KeyT = (x : ValueT) × (is_key x ≡ true)

pub int-is_key : (z : ℤ) → is_key (record { t = vt_num_integer; v = int32 z }) ≡ true
unfolding is_key
int-is_key z = rw (int32_idem z) (same_int_refl (int32 z))

-- `setnumi` of an `int`.
abbrev pub num_key : ℤ → KeyT
num_key z = (record { t = vt_num_integer; v = int32 z }, int-is_key z)

pub fixnum-fits :
    (x : ValueT) (z : ℤ)
    → is_key x ≡ true
    → fixnum x ≡ some z
    → (x.t ≡ vt_num_integer) × (x.v ≡ z) × (int32 z ≡ z)
unfolding fixnum is_key
fixnum-fits x z k h = elim (Bool-cases (x.t == vt_num_integer)) [
  | inl number ↦
      let e : x.v ≡ z = some_inj (sym (rw number refl) ∙ h) in
      let fit : same_int (int32 x.v) x.v ≡ true = sym (rw number refl) ∙ k in
      (
        ==→eq x.t vt_num_integer number,
        e,
        subst (λ w. int32 w ≡ w) e (same_int_sound (int32 x.v) x.v fit),
      )
  | inr other ↦ let e : fixnum x ≡ none = rw other refl in cc
]

unfoldable pub key_laws :
    (chars : ℕ → List ℕ) (field : ℕ → ℤ) (seed : ℕ) → IsCached chars field seed → Keys KeyT
unfolding fixnum
key_laws chars field seed cached = record {
  gethash = λ x. gethash chars field seed x.0;
  keyeq = λ x y. keyeq chars x.0 y.0;
  numi = λ x. fixnum x.0;
  setnumi = num_key;
  keyeq_refl = λ x. Same-keyeq chars x.0 x.0 x.1 (Same-refl chars x.0);
  keyeq_symm =
      λ x y e. Same-keyeq chars y.0 x.0 y.1 (Same-symm chars x.0 y.0 (keyeq-Same chars x.0 y.0 e));
  keyeq_trans = λ x y z e f.
      Same-keyeq chars x.0 z.0 x.1
        (Same-trans chars x.0 y.0 z.0 (keyeq-Same chars x.0 y.0 e) (keyeq-Same chars y.0 z.0 f));
  keyeq-gethash =
      λ x y e. gethash-Same chars field seed cached x.0 y.0 (keyeq-Same chars x.0 y.0 e);
  keyeq-numi = λ x y e. fixnum-Same chars x.0 y.0 (keyeq-Same chars x.0 y.0 e);
  numi-fits = λ x z h. let (t, v, fit) = fixnum-fits x.0 z x.1 h in fit;
  numi-setnumi = λ n h. ap (λ (z : ℤ). some z) (int32-pos n h);
  keyeq-setnumi = λ x z h.
      let (t, v, fit) = fixnum-fits x.0 z x.1 h in
      Same-keyeq chars x.0 (num_key z).0 x.1
        (Same-of chars x.0 (num_key z).0 t (inr (v ∙ sym fit)));
}
