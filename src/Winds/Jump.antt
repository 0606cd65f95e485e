-- ===== src/Winds/Jump.antt =====
-- Entering a continuation.
use dummyscheme.Winds.{
  DynamicWindObj, Vm, Proc, DwState, dw_none, dw_before, dw_body, dw_after, wind_at, leave,
  unwinddywindchain, unwinddynamichain,
}
use dummyscheme.Winds.Chains.{
  Chain, IsOrdered, has, head_of, Chain-unique, Chain-split, indywindchain-has, Chain-of,
}
use mathlib.Core.List.{append-nil}
use dummyscheme.Common.{
  List, ℕ, Option, ◌≡◌, ◌++◌, length, ◌∷◌, [], set, some, All, ◌≤◌, ◌<◌, false, arith, suc, sym, ap,
  Bool-cases, inl, ◌∙◌, inr, zero, refl, none,
}

-- The procedures to call for the objects that are left, the innermost first: the `after` of those
-- that are in their body.
abbrev pub after_of : DwState → Proc → List Proc
after_of dw_body p = p ∷ []
after_of dw_none p = []
after_of dw_before p = []
after_of dw_after p = []

abbrev pub afters : List DynamicWindObj → List ℕ → List Proc
afters winds [] = []
afters winds (i ∷ l) = after_of (wind_at winds i).state (wind_at winds i).after ++ afters winds l

-- Those for the objects that are entered, the outermost first.
abbrev pub befores : List DynamicWindObj → List ℕ → List Proc
befores winds [] = []
befores winds (i ∷ l) = befores winds l ++ ((wind_at winds i).before ∷ [])

-- The objects are in their body.
abbrev pub in_body : List DynamicWindObj → List ℕ → List DynamicWindObj
in_body winds [] = winds
in_body winds (i ∷ l) =
    let rest = in_body winds l in set rest i (record (wind_at rest i) { state = dw_body })

abbrev pub run_all : {W : Type 0} → (Proc → W → W) → List Proc → W → W
run_all run [] w = w
run_all run (p ∷ ps) w = run_all run ps (run p w)

-- The chain leads to objects of the store, each younger than its parent.
pub record IsValid {W : Type 0} (v : Vm W) : Type 0 where
  pub ordered : IsOrdered v.winds
  pub inside : (i : ℕ) → v.dywind ≡ some i → i < length v.winds

module _ {W : Type 0} (run : Proc → W → W) where
  pub run_all-append :
      (l m : List Proc) (w : W) → run_all run (l ++ m) w ≡ run_all run m (run_all run l w)
  run_all-append [] m w = refl
  run_all-append (p ∷ l) m w = run_all-append l m (run p w)

  leave_world :
      (s : DwState) (p : Proc) (w : W)
      → elim s [ dw_body ↦ run p w | dw_none ↦ w | dw_before ↦ w | dw_after ↦ w ]
        ≡ run_all run (after_of s p) w
  leave_world dw_none p w = refl
  leave_world dw_before p w = refl
  leave_world dw_body p w = refl
  leave_world dw_after p w = refl

  -- One round of the unwinding.
  leave-afters :
      (v : Vm W) (i : ℕ) (l : List ℕ)
      → run_all run (afters v.winds l) (leave run v i).world
        ≡ run_all run (afters v.winds (i ∷ l)) v.world
  unfolding leave
  leave-afters v i l =
      let dy = wind_at v.winds i in
      ap (λ w. run_all run (afters v.winds l) w) (leave_world dy.state dy.after v.world)
      ∙ sym (run_all-append (after_of dy.state dy.after) (afters v.winds l) v.world)

  -- What the unwinding to a chain `t` leaves of a chain `l`.
  abbrev pub Unwinds : Vm W → Option (Vm W) → List ℕ → List ℕ → Type 0
  Unwinds v result l t =
      (left shared entered : List ℕ) × (l ≡ left ++ shared)
      × (t ≡ entered ++ shared)
      × All (λ i. has i t ≡ false) left
      × (result
          ≡ some (record v {
            dywind = head_of shared;
            world = run_all run (afters v.winds left) v.world;
          }))

  pub unwinddywindchain_lem :
      (fuel : ℕ) (v : Vm W) (stop : Option ℕ) (l t : List ℕ)
      → Chain v.winds v.dywind l
      → Chain v.winds stop t
      → length t ≤ length v.winds
      → length l < fuel
      → Unwinds v (unwinddywindchain run fuel v stop) l t
  unfolding unwinddywindchain leave
  unwinddywindchain_lem zero v stop l t c d few enough = absurd (omega arith)
  unwinddywindchain_lem (suc fuel) v stop [] t c d few enough = (
    [],
    [],
    t,
    refl,
    sym (append-nil t),
    tt,
    rw (unwinddywindchain, c) (ap (λ (h : Option ℕ). some (record v { dywind = h })) c),
  )
  unwinddywindchain_lem (suc fuel) v stop (i ∷ l) t (e, c) d few enough =
      elim (Bool-cases (has i t)) [
        | inl inside ↦
            let (pre, r, split, chain) = Chain-split v.winds stop t i d inside in
            let same = Chain-unique v.winds (wind_at v.winds i).parent r l chain.1 c in
            let found = indywindchain-has v.winds (length v.winds) stop t i few d ∙ inside in
            (
              [],
              i ∷ l,
              pre,
              refl,
              split ∙ ap (λ m. pre ++ (i ∷ m)) same,
              tt,
              rw (unwinddywindchain, e, found)
                  (ap (λ (h : Option ℕ). some (record v { dywind = h })) e),
            )
        | inr outside ↦
            let absent = indywindchain-has v.winds (length v.winds) stop t i few d ∙ outside in
            let (left, shared, entered, split, target, apart, run_rest) =
              unwinddywindchain_lem fuel (leave run v i) stop l t c d few (omega arith) in
            (
              i ∷ left,
              shared,
              entered,
              ap (λ m. i ∷ m) split,
              target,
              (outside, apart),
              rw (unwinddywindchain, e, absent)
                  (run_rest
                    ∙ ap (λ (w : W). some (record v { dywind = head_of shared; world = w }))
                        (leave-afters v i left)),
            )
      ]

  -- The unwinding of the whole chain.
  unwinddynamichain_lem :
      (fuel : ℕ) (v : Vm W) (l : List ℕ)
      → Chain v.winds v.dywind l
      → length l < fuel
      → unwinddynamichain run fuel v
        ≡ some (record v { dywind = none; world = run_all run (afters v.winds l) v.world })
  unfolding unwinddynamichain leave
  unwinddynamichain_lem zero v l c enough = absurd (omega arith)
  unwinddynamichain_lem (suc fuel) v [] c enough =
      rw (unwinddynamichain, c) (ap (λ (h : Option ℕ). some (record v { dywind = h })) c)
  unwinddynamichain_lem (suc fuel) v (i ∷ l) (e, c) enough =
      rw (unwinddynamichain, e)
        (unwinddynamichain_lem fuel (leave run v i) l c (omega arith)
          ∙ ap (λ (w : W). some (record v { dywind = none; world = w })) (leave-afters v i l))

  -- A valid chain is unwound to its end.
  unwinddynamichain-ends :
      (v : Vm W)
      → IsValid v
      → (l : List ℕ) × Chain v.winds v.dywind l
        × (unwinddynamichain run (suc (length v.winds)) v
            ≡ some (record v { dywind = none; world = run_all run (afters v.winds l) v.world }))
  unwinddynamichain-ends v valid =
      let (l, chain, few) = Chain-of v.winds valid.ordered (length v.winds) v.dywind valid.inside in
      (l, chain, unwinddynamichain_lem (suc (length v.winds)) v l chain (omega (arith, few)))
