-- ===== src/Bytevector/Copy.antt =====
-- `bytevector-copy!` puts the source range at the target place and keeps the length.
use dummyscheme.Common.{
  some, List, ℕ, take, drop, ◌≤◌, length, ◌++◌, ◌<◌, ◌≡◌, ◌^◌, ap, ◌+◌, arith, ◌-◌, length-take,
  length-append, sym, length-drop, ◌∙◌, ◌&&◌, leb, true, drop-append, take-append,
}
use dummyscheme.Common.Int.{pos, leb_ℤ}
use dummyscheme.Bytevector.{range_args, bytevector_copy_to, bytevector_indexarg, bytevector_copy}
use dummyscheme.Bytevector.Access.{int32_lem}

range_args-pos :
    (s e len : ℕ)
    → s ≤ e
    → e ≤ len
    → len < 2 ^ 31
    → range_args (some (pos s)) (some (pos e)) len ≡ some (s, e)
unfolding range_args bytevector_indexarg
range_args-pos s e len h l small =
    rw
      (int32_lem (pos s) (omega arith) (omega arith), int32_lem (pos e) (omega arith) (omega arith))
      (ground arith)

module _ (dst src : List ℕ) (at s e : ℕ) (order : s ≤ e) (inside : e ≤ length src)
    (room : at + (e - s) ≤ length dst) where
  abbrev moved : List ℕ
  moved = take (e - s) (drop s src)

  abbrev result : List ℕ
  result = take at dst ++ (moved ++ drop (at + (e - s)) dst)

  length-moved : length moved ≡ e - s
  length-moved = omega (arith, length-take (e - s) (drop s src), length-drop s src)

  length-front : length (take at dst) ≡ at
  length-front = omega (arith, length-take at dst)

  length-result : length result ≡ length dst
  length-result = omega (
    arith,
    length-append (take at dst) (moved ++ drop (at + (e - s)) dst),
    length-append moved (drop (at + (e - s)) dst),
    length-drop (at + (e - s)) dst,
    length-front,
    length-moved,
  )

  copied : take (at + (e - s) - at) (drop at result) ≡ moved
  copied =
      let behind =
        ap (λ n. drop n result) (sym length-front)
        ∙ drop-append (take at dst) (moved ++ drop (at + (e - s)) dst) in
      let count : at + (e - s) - at ≡ length moved = omega (arith, length-moved) in
      rw (behind, count) (take-append moved (drop (at + (e - s)) dst))

  -- For lengths below 2 ^ 31, a source range in order and within the source, and a target place
  -- with room for it, `bytevector-copy!` succeeds and keeps the length of the target, and
  -- `bytevector-copy` of the place written gives what it gives of the source range.
  bytevector_copy-bytevector_copy_to :
      length dst < 2 ^ 31
      → length src < 2 ^ 31
      → (r : List ℕ) × (bytevector_copy_to dst (pos at) src (some (pos s)) (some (pos e)) ≡ some r)
        × (length r ≡ length dst)
        × (bytevector_copy r (some (pos at)) (some (pos (at + (e - s))))
            ≡ bytevector_copy src (some (pos s)) (some (pos e)))
  unfolding bytevector_copy_to bytevector_copy
  bytevector_copy-bytevector_copy_to hd hs =
      let source = range_args-pos s e (length src) order inside hs in
      let target =
        range_args-pos at (at + (e - s)) (length result) (omega arith)
          (omega (arith, length-result)) (omega (arith, length-result)) in
      let here = int32_lem (pos at) (omega arith) (omega arith) in
      let fits : (leb_ℤ (pos 0) (pos at) && leb (at + (e - s)) (length dst)) ≡ true =
        ground arith in
      (result, rw (source, here, fits), length-result, rw (target, source, copied))
