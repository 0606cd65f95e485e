-- ===== src/HashTable/Keys/Same.antt =====
-- When two keys are the same.
use mathlib.Core.Path.{subst}
use dummyscheme.Common.{
  none, some, [], ℕ, List, Option, true, false, Bool, ◌&&◌, ◌||◌, ◌==◌, leb, ◌^◌, if◌then◌else◌,
  ◌≡◌, arith, refl, sym, ap, ◌∙◌, inl, inr, Bool-cases, ==→eq, ◌⊎◌, ap₂, ◌%◌,
}
use dummyscheme.Common.Int.{ℤ, pos, pos_part, eq_of_parts, ltb_ℤ}
use dummyscheme.Common.Signed.{to_word}
use dummyscheme.Bytevector.{int32}
use dummyscheme.Bytevector.Access.{int32_lem}
use dummyscheme.Interns.{same_bytes, hash}
use dummyscheme.Interns.Invariant.{same_bytes_sound, same_bytes_refl, both}
use dummyscheme.HashTable.Keys.{
  ValueT, same_int, is_constant, is_key, eqp, keyeq, gethash, vt_num_integer, vt_char,
  vt_lightuserdata, vt_ref, vt_ref_str, hash_field,
}
use native.Mathlib.Nat.{mod-lt}

pub same_int_sound : (a b : ℤ) → same_int a b ≡ true → a ≡ b
unfolding same_int
same_int_sound a b h = eq_of_parts a b (ground (arith, h))

pub same_int_refl : (a : ℤ) → same_int a a ≡ true
unfolding same_int
same_int_refl a = ground arith

pub int32_idem : (z : ℤ) → int32 (int32 z) ≡ int32 z
int32_idem z =
    let small = mod-lt (to_word z) {m = 2 ^ 32} (omega arith) in
    int32_lem (int32 z) (ground (arith, small)) (ground (arith, small))

either : (a b : Bool) → (a || b) ≡ true → (a ≡ true) ⊎ (b ≡ true)
either true b h = inl refl
either false b h = inr h

eqp_sound : (x y : ValueT) → eqp x y ≡ true → (x.t ≡ y.t) × ((is_constant x.t ≡ true) ⊎ (x.v ≡ y.v))
unfolding eqp
eqp_sound x y h = elim (Bool-cases (x.t == y.t)) [
  | inl types ↦ (
    ==→eq x.t y.t types,
    elim (Bool-cases (is_constant x.t)) [
      | inl constant ↦ inl constant
      | inr varies ↦
          let h2 =
            subst
              (λ b.
                (if x.t == y.t
                  then (if b
                      then true
                      else (x.t == vt_num_integer
                          || x.t == vt_char
                          || x.t == vt_lightuserdata
                          || leb vt_ref x.t)
                        && same_int x.v y.v)
                  else false)
                ≡ true)
              varies h in
          let h3 =
            subst
              (λ b.
                (if b
                  then (x.t == vt_num_integer
                      || x.t == vt_char
                      || x.t == vt_lightuserdata
                      || leb vt_ref x.t)
                    && same_int x.v y.v
                  else false)
                ≡ true)
              types h2 in
          inr (same_int_sound x.v y.v (both _ (same_int x.v y.v) h3).1)
    ],
  )
  | inr differ ↦ let e : eqp x y ≡ false = rw (eqp, differ) refl in cc
]

has_payload :
    (x : ValueT)
    → is_key x ≡ true
    → is_constant x.t ≡ false
    → (x.t == vt_num_integer || x.t == vt_char || x.t == vt_lightuserdata || leb vt_ref x.t) ≡ true
unfolding is_key is_constant
has_payload x k varies = ground (arith, k, varies)

or_right : (a b : Bool) → b ≡ true → (a || b) ≡ true
or_right true b h = refl
or_right false b h = h

eqp_complete :
    (x y : ValueT)
    → is_key x ≡ true
    → x.t ≡ y.t
    → (is_constant x.t ≡ true) ⊎ ((is_constant x.t ≡ false) × (x.v ≡ y.v))
    → eqp x y ≡ true
unfolding eqp
eqp_complete x y k t (inl constant) =
    let types : (x.t == y.t) ≡ true = ground (arith, t) in rw (types, constant) refl
eqp_complete x y k t (inr (varies, v)) =
    let types : (x.t == y.t) ≡ true = ground (arith, t) in
    let v_same = ap (λ w. same_int x.v w) (sym v) ∙ same_int_refl x.v in
    rw (types, varies, has_payload x k varies, v_same) refl

unfoldable pub fixnum : ValueT → Option ℤ
fixnum x = if x.t == vt_num_integer then some x.v else none

module _ (chars : ℕ → List ℕ) where
  point : ValueT → ℤ
  point x = if is_constant x.t || x.t == vt_ref_str then pos 0 else x.v

  text : ValueT → List ℕ
  text x = if x.t == vt_ref_str then chars (pos_part x.v) else []

  -- What two equal keys have in common.
  pub Same : ValueT → ValueT → Type 0
  Same x y = (x.t ≡ y.t) × (point x ≡ point y) × (text x ≡ text y)

  pub Same-of : (x y : ValueT) → x.t ≡ y.t → (is_constant x.t ≡ true) ⊎ (x.v ≡ y.v) → Same x y
  unfolding Same point text is_constant
  Same-of x y t (inl constant) =
      let other : (x.t == vt_ref_str) ≡ false = ground (arith, constant) in
      let also = subst (λ n. is_constant n ≡ true) t constant in
      let same_other = subst (λ n. (n == vt_ref_str) ≡ false) t other in
      (t, rw (constant, also) refl, rw (other, same_other) refl)
  Same-of x y t (inr v) = (
    t,
    ap₂ (λ n w. if is_constant n || n == vt_ref_str then pos 0 else w) t v,
    ap₂ (λ n w. if n == vt_ref_str then chars (pos_part w) else []) t v,
  )

  pub keyeq-Same : (x y : ValueT) → keyeq chars x y ≡ true → Same x y
  unfolding keyeq Same point text is_constant
  keyeq-Same x y h =
      elim (either
        (x.t == vt_ref_str
          && y.t == vt_ref_str
          && same_bytes (chars (pos_part x.v)) (chars (pos_part y.v)))
        (eqp x y) h) [
          | inr equal ↦ let (t, e) = eqp_sound x y equal in Same-of x y t e
          | inl texts ↦
              let (types, bytes) = both (x.t == vt_ref_str && y.t == vt_ref_str) _ texts in
              let (xs, ys) = both (x.t == vt_ref_str) (y.t == vt_ref_str) types in
              let same = same_bytes_sound _ _ bytes in
              let xt = ==→eq x.t vt_ref_str xs in
              let yt = ==→eq y.t vt_ref_str ys in (xt ∙ sym yt, rw (xt, yt) refl, rw (xs, ys) same)
        ]

  pub Same-keyeq : (x y : ValueT) → is_key x ≡ true → Same x y → keyeq chars x y ≡ true
  unfolding keyeq Same point text eqp is_constant is_key
  Same-keyeq x y k (t, p, s) = elim (Bool-cases (x.t == vt_ref_str)) [
    | inl xs ↦
        let ys : (y.t == vt_ref_str) ≡ true = subst (λ n. (n == vt_ref_str) ≡ true) t xs in
        let same : chars (pos_part x.v) ≡ chars (pos_part y.v) =
          sym (rw xs refl) ∙ s ∙ rw ys refl in
        rw (xs, ys, same, same_bytes_refl (chars (pos_part y.v))) refl
    | inr other ↦
        let ys = subst (λ n. (n == vt_ref_str) ≡ false) t other in
        let equal = eqp_complete x y k t (elim (Bool-cases (is_constant x.t)) [
          | inl constant ↦ inl constant
          | inr varies ↦
              let also = subst (λ n. is_constant n ≡ false) t varies in
              inr (varies, sym (rw (varies, other) refl) ∙ p ∙ rw (also, ys) refl)
        ]) in
        or_right _ (eqp x y) equal
  ]

  pub Same-refl : (x : ValueT) → Same x x
  unfolding Same
  Same-refl x = (refl, refl, refl)

  pub Same-symm : (x y : ValueT) → Same x y → Same y x
  unfolding Same
  Same-symm x y (t, p, s) = (sym t, sym p, sym s)

  pub Same-trans : (x y z : ValueT) → Same x y → Same y z → Same x z
  unfolding Same
  Same-trans x y z (t, p, s) (u, q, r) = (t ∙ u, p ∙ q, s ∙ r)

  -- The payload of a key that is neither a constant nor a string.
  payload-Same :
      (x y : ValueT) → Same x y → is_constant x.t ≡ false → (x.t == vt_ref_str) ≡ false → x.v ≡ y.v
  unfolding Same point
  payload-Same x y (t, p, s) varies other =
      let also = subst (λ n. is_constant n ≡ false) t varies in
      let ys = subst (λ n. (n == vt_ref_str) ≡ false) t other in
      sym (rw (varies, other) refl) ∙ p ∙ rw (also, ys) refl

  pub fixnum-Same : (x y : ValueT) → Same x y → fixnum x ≡ fixnum y
  unfolding fixnum Same is_constant
  fixnum-Same x y same = elim (Bool-cases (x.t == vt_num_integer)) [
    | inl number ↦
        let also = subst (λ n. (n == vt_num_integer) ≡ true) same.0 number in
        rw (number, also)
          (ap (λ (t : ℤ). some t)
            (payload-Same x y same (ground (arith, number)) (ground (arith, number))))
    | inr other ↦
        let also = subst (λ n. (n == vt_num_integer) ≡ false) same.0 other in rw (other, also) refl
  ]

  -- Each `hash` field is negative or the hash of the characters.
  module _ (field : ℕ → ℤ) (seed : ℕ) where
    abbrev pub IsCached : Type 0
    IsCached =
        (a : ℕ) → (ltb_ℤ (field a) (pos 0) ≡ true) ⊎ (field a ≡ int32 (pos (hash (chars a) seed)))

    -- So the field is right after `gethash`.
    hash_field_lem :
        IsCached → (a : ℕ) → hash_field chars field seed a ≡ int32 (pos (hash (chars a) seed))
    unfolding hash_field
    hash_field_lem cached a = elim (cached a) [
      | inl unset ↦ rw unset refl
      | inr e ↦ elim (Bool-cases (ltb_ℤ (field a) (pos 0))) [
        | inl again ↦ rw again refl
        | inr kept ↦ rw kept e
      ]
    ]

    -- The hash of a string.
    gethash-string :
        IsCached
        → (v : ℤ)
        → gethash chars field seed (record { t = vt_ref_str; v = v })
          ≡ to_word (int32 (pos (hash (chars (pos_part v)) seed))) % 2 ^ 32
    unfolding gethash
    gethash-string cached v = ap (λ h. to_word h % 2 ^ 32) (hash_field_lem cached (pos_part v))

    pub gethash-Same :
        IsCached
        → (x y : ValueT) → Same x y
        → gethash chars field seed x ≡ gethash chars field seed y
    unfolding Same point text is_constant gethash
    gethash-Same cached x y (t, p, s) = elim (Bool-cases (x.t == vt_ref_str)) [
      | inl xs ↦
          let ys : (y.t == vt_ref_str) ≡ true = subst (λ n. (n == vt_ref_str) ≡ true) t xs in
          let same : chars (pos_part x.v) ≡ chars (pos_part y.v) =
            sym (rw xs refl) ∙ s ∙ rw ys refl in
          let xt =
            ap (λ n. gethash chars field seed (record { t = n; v = x.v }))
              (==→eq x.t vt_ref_str xs) in
          let yt =
            ap (λ n. gethash chars field seed (record { t = n; v = y.v }))
              (==→eq y.t vt_ref_str ys) in
          xt
          ∙ gethash-string cached x.v
          ∙ ap (λ cs. to_word (int32 (pos (hash cs seed))) % 2 ^ 32) same
          ∙ sym (gethash-string cached y.v)
          ∙ sym yt
      | inr other ↦ elim (Bool-cases (is_constant x.t)) [
        | inl constant ↦ rw t (ground (arith, subst (λ n. is_constant n ≡ true) t constant))
        | inr varies ↦
            ap₂ (λ n w. gethash chars field seed (record { t = n; v = w })) t
              (payload-Same x y (t, p, s) varies other)
      ]
    ]
