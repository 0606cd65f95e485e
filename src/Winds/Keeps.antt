-- ===== src/Winds/Keeps.antt =====
-- What the operations on the chain keep: its store in order, and pointers into it.
use mathlib.Core.Path.{subst}
use dummyscheme.Winds.{
  DynamicWindObj, Vm, ContinuationObj, Proc, DyWindStep, DwState, dw_none, dw_before, dw_body,
  dw_after, wind_at, checkdywindlambda, calldynamicwind, switch_state, dywindadvance, leave,
  call_continuation, unwinddynamichain, write_wind, new_wind, dywind_step_call, dywind_step_done,
}
use dummyscheme.Winds.Chains.{IsOrdered}
use dummyscheme.Winds.Jump.{IsValid, in_body, run_all, afters, befores}
use dummyscheme.Winds.Resume.{call_continuation-Jumps, is_illegal}
use dummyscheme.Common.{
  none, refl, List, ℕ, ◌∷◌, [], Option, length, ◌≡◌, arith, ◌++◌, Bool, some, ◌≤◌, set, ◌<◌, sym,
  ◌⊎◌, ◌∙◌, inr, suc, length-set, inl, zero, ap, length-append, Bool-cases, Option-cases, ◌&&◌,
  some_inj,
}

-- A pointer is none or into the store.
abbrev pub IsInside : List DynamicWindObj → Option ℕ → Type 0
IsInside winds h = (i : ℕ) → h ≡ some i → i < length winds

-- A store keeps its order, and has no object less.
pub record Grows (v u : List DynamicWindObj) : Type 0 where
  pub parents : IsOrdered v → IsOrdered u
  pub more : length v ≤ length u

write_parent :
    (winds : List DynamicWindObj) (d i : ℕ) (w : DynamicWindObj)
    → w.parent ≡ (wind_at winds d).parent
    → (wind_at (set winds d w) i).parent ≡ (wind_at winds i).parent
write_parent [] d i w e = refl
write_parent (x ∷ winds) zero zero w e = e
write_parent (x ∷ winds) zero (suc i) w e = refl
write_parent (x ∷ winds) (suc d) zero w e = refl
write_parent (x ∷ winds) (suc d) (suc i) w e = write_parent winds d i w e

write-Grows :
    (winds : List DynamicWindObj) (d : ℕ) (w : DynamicWindObj)
    → w.parent ≡ (wind_at winds d).parent
    → Grows winds (set winds d w)
write-Grows winds d w e = record {
  parents = λ ordered i p at. ordered i p (sym (write_parent winds d i w e) ∙ at);
  more = omega (arith, length-set winds d w);
}

in_body-Grows : (winds : List DynamicWindObj) (l : List ℕ) → Grows winds (in_body winds l)
in_body-Grows winds [] = record { parents = λ ordered. ordered; more = omega arith }
in_body-Grows winds (i ∷ l) =
    let rest = in_body-Grows winds l in
    let last =
      write-Grows (in_body winds l) i (record (wind_at (in_body winds l) i) { state = dw_body })
        refl in
    record {
      parents = λ ordered. last.parents (rest.parents ordered);
      more = omega (arith, rest.more, last.more);
    }

parent-append :
    (winds : List DynamicWindObj) (w : DynamicWindObj) (i p : ℕ)
    → (wind_at (winds ++ (w ∷ [])) i).parent ≡ some p
    → ((wind_at winds i).parent ≡ some p) ⊎ ((i ≡ length winds) × (w.parent ≡ some p))
parent-append [] w zero p e = inr (refl, e)
parent-append [] w (suc i) p e = inl e
parent-append (x ∷ winds) w zero p e = inl e
parent-append (x ∷ winds) w (suc i) p e = elim (parent-append winds w i p e) [
  | inl old ↦ inl old
  | inr (last, at) ↦ inr (ap suc last, at)
]

parent-IsInside :
    (winds : List DynamicWindObj) (d p : ℕ)
    → IsOrdered winds
    → (wind_at winds d).parent ≡ some p
    → p < length winds
parent-IsInside winds d p ordered at =
    let below = ordered d p at in
    let inside : d < length winds = bound winds d at in omega (arith, below, inside)
  where
    bound :
        (winds : List DynamicWindObj) (d : ℕ) → (wind_at winds d).parent ≡ some p → d < length winds
    bound [] d at = cc
    bound (x ∷ winds) zero at = omega arith
    bound (x ∷ winds) (suc d) at = omega (arith, bound winds d at)

-- What one operation keeps.
abbrev pub Keeps : {W : Type 0} → Vm W → Vm W → Type 0
Keeps v u = Grows v.winds u.winds × IsInside u.winds u.dywind

of_result :
    {A : Type 0} (P : A → Type 0) (r : Option A) (a b : A) → r ≡ some a → r ≡ some b → P a → P b
of_result P r a b e f h = subst P (some_inj (sym e ∙ f)) h

module _ {W : Type 0} (v : Vm W) (valid : IsValid v) where
  made-Keeps :
      (w : DynamicWindObj)
      → w.parent ≡ v.dywind
      → Keeps v (record v { winds = v.winds ++ (w ∷ []); dywind = some (length v.winds) })
  made-Keeps w e = (
    record {
      parents = λ ordered i p at. elim (parent-append v.winds w i p at) [
        | inl old ↦ ordered i p old
        | inr (last, up) ↦ omega (arith, last, valid.inside p (sym e ∙ up))
      ];
      more = omega (arith, length-append v.winds (w ∷ []));
    },
    λ i at. omega (arith, length-append v.winds (w ∷ []), some_inj at),
  )

  pub calldynamicwind-Keeps :
      (args : List Proc) (istail : Bool) (u : Vm W) (d : ℕ) (p : Proc)
      → calldynamicwind v args istail ≡ some (u, d, p)
      → Keeps v u
  unfolding calldynamicwind
  calldynamicwind-Keeps [] istail u d p e = cc
  calldynamicwind-Keeps (a ∷ []) istail u d p e = cc
  calldynamicwind-Keeps (a ∷ b ∷ []) istail u d p e = cc
  calldynamicwind-Keeps (a ∷ b ∷ c ∷ more ∷ rest) istail u d p e = cc
  calldynamicwind-Keeps (a ∷ b ∷ c ∷ []) istail u d p e =
      elim (Bool-cases (checkdywindlambda a && checkdywindlambda b && checkdywindlambda c)) [
        | inl fine ↦
            of_result (λ (r : Vm W × ℕ × Proc). Keeps v r.0)
              (calldynamicwind v (a ∷ b ∷ c ∷ []) istail)
              (
                record v {
                  winds = v.winds ++ (new_wind v.dywind a b c istail ∷ []);
                  dywind = some (length v.winds);
                },
                length v.winds,
                a,
              )
              (u, d, p) (rw (calldynamicwind, fine) refl) e
              (made-Keeps (new_wind v.dywind a b c istail) refl)
        | inr wrong ↦
            let gone : calldynamicwind v (a ∷ b ∷ c ∷ []) istail ≡ none =
              rw (calldynamicwind, wrong) refl in
            cc
      ]

  written-Keeps :
      (d : ℕ) (w : DynamicWindObj)
      → w.parent ≡ (wind_at v.winds d).parent
      → Keeps v (write_wind v d w)
  written-Keeps d w e =
      (write-Grows v.winds d w e, λ i at. omega (arith, valid.inside i at, length-set v.winds d w))

  parent-Keeps :
      (winds : List DynamicWindObj) (d : ℕ) (world : W)
      → Grows v.winds winds
      → Keeps v (record { winds = winds; dywind = (wind_at v.winds d).parent; world = world })
  parent-Keeps winds d world grows =
      (grows, λ i at. omega (arith, parent-IsInside v.winds d i valid.ordered at, grows.more))

  pub dywindadvance-Keeps :
      (d : ℕ) (slot : Proc) (u : Vm W) (p : Proc) (k : DyWindStep)
      → dywindadvance v d slot ≡ some (u, p, k)
      → Keeps v u
  unfolding dywindadvance switch_state
  dywindadvance-Keeps d slot u p k e = by_state (wind_at v.winds d).state refl
    where
      of_step :
          (r : Vm W × Proc × DyWindStep) → dywindadvance v d slot ≡ some r → Keeps v r.0 → Keeps v u
      of_step r run keeps =
          of_result (λ (x : Vm W × Proc × DyWindStep). Keeps v x.0) (dywindadvance v d slot) r
            (u, p, k) run e keeps

      by_state : (s : DwState) → (wind_at v.winds d).state ≡ s → Keeps v u
      by_state dw_none same =
          let gone : dywindadvance v d slot ≡ none = rw (dywindadvance, switch_state, same) refl in
          cc
      by_state dw_before same =
          let w = record (wind_at v.winds d) { state = dw_body } in
          of_step (write_wind v d w, (wind_at v.winds d).body, dywind_step_call)
            (rw (dywindadvance, switch_state, same) refl) (written-Keeps d w refl)
      by_state dw_body same =
          let w = record (wind_at v.winds d) { state = dw_after; retval = slot } in
          of_step (write_wind v d w, (wind_at v.winds d).after, dywind_step_call)
            (rw (dywindadvance, switch_state, same) refl) (written-Keeps d w refl)
      by_state dw_after same =
          let w = record (wind_at v.winds d) { state = dw_none } in
          of_step
            (
              record (write_wind v d w) { dywind = (wind_at v.winds d).parent },
              (wind_at v.winds d).retval,
              dywind_step_done,
            )
            (rw (dywindadvance, switch_state, same) refl)
            (parent-Keeps (set v.winds d w) d v.world (write-Grows v.winds d w refl))

module _ {W : Type 0} (run : Proc → W → W) where
  pub call_continuation-Keeps :
      (v u : Vm W) (cont : ContinuationObj)
      → IsValid v
      → IsInside v.winds cont.dywind
      → call_continuation run v cont ≡ some u
      → Keeps v u
  call_continuation-Keeps v u cont valid known e =
      let (left, shared, entered, c, d, apart, jumps) =
        call_continuation-Jumps run v cont valid known in
      elim (Bool-cases (is_illegal cont entered)) [
        | inl illegal ↦
            let gone : call_continuation run v cont ≡ none = jumps ∙ rw illegal refl in cc
        | inr fine ↦
            of_result (λ (r : Vm W). Keeps v r) (call_continuation run v cont)
              (record {
                winds = in_body v.winds entered;
                dywind = cont.dywind;
                world = run_all run (afters v.winds left ++ befores v.winds entered) v.world;
              })
              u (jumps ∙ rw fine refl) e
              (
                in_body-Grows v.winds entered,
                λ i at. omega (arith, known i at, (in_body-Grows v.winds entered).more),
              )
      ]

  pub unwinddynamichain-Keeps :
      (fuel : ℕ) (v u : Vm W) → IsValid v → unwinddynamichain run fuel v ≡ some u → Keeps v u
  unfolding unwinddynamichain leave
  unwinddynamichain-Keeps zero v u valid e = cc
  unwinddynamichain-Keeps (suc fuel) v u valid e = elim (Option-cases v.dywind) [
    | inl empty ↦
        of_result (λ (r : Vm W). Keeps v r) (unwinddynamichain run (suc fuel) v) v u
          (simp (unwinddynamichain, empty) refl) e
          (record { parents = λ ordered. ordered; more = omega arith }, valid.inside)
    | inr (d, at) ↦
        let step : unwinddynamichain run (suc fuel) v ≡ unwinddynamichain run fuel (leave run v d) =
          rw (unwinddynamichain, at) refl in
        let left : IsValid (leave run v d) = record {
          ordered = valid.ordered;
          inside = λ i up. parent-IsInside v.winds d i valid.ordered up;
        } in
        unwinddynamichain-Keeps fuel (leave run v d) u left (sym step ∙ e)
  ]
