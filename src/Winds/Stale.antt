-- ===== src/Winds/Stale.antt =====
-- A continuation of the body that is called in the `after` thunk of the same call.
use dummyscheme.Winds.{
  DynamicWindObj, Vm, ContinuationObj, Proc, dw_body, dw_after, wind_at, write_wind, dw_none,
  switch_state, dywindadvance, dywind_step_done, indywindchain, unwinddywindchain, enterdywindchain,
  in_thunk, call_continuation,
}
use dummyscheme.Common.{refl, ℕ, List, ◌≡◌, ◌<◌, some, true, length, arith, ◌>>=◌, ◌==◌, suc, zero}

indywindchain_self :
    (n : ℕ) (winds : List DynamicWindObj) (d : ℕ) → 0 < n → indywindchain n winds (some d) d ≡ true
unfolding indywindchain
indywindchain_self zero winds d h = absurd (omega arith)
indywindchain_self (suc n) winds d h = let here : (d == d) ≡ true = ground arith in rw here refl

module _ {W : Type 0} (run : Proc → W → W) (v : Vm W) (d : ℕ) (at : v.dywind ≡ some d)
    (inside : d < length v.winds) (cont : ContinuationObj) (same : cont.dywind ≡ some d)
    (in_body : cont.dystage ≡ some dw_body) where
  -- The chain is already that of the continuation.
  call_continuation-stays : call_continuation run v cont ≡ some v
  unfolding call_continuation unwinddywindchain enterdywindchain in_thunk
  call_continuation-stays =
      let found = indywindchain_self (length v.winds) v.winds d (omega (arith, inside)) in
      let here : (d == d) ≡ true = ground arith in
      simp
        (
          call_continuation, unwinddywindchain, enterdywindchain, in_thunk, at, same, in_body,
          found, here,
        )
        refl

  -- When a continuation captured in the body of a `dynamic-wind` is called while that object, the
  -- head of the chain, runs its `after` thunk, the return from the body ends the `dynamic-wind`
  -- with the value stored before and calls no thunk.
  pub dywindadvance-stale :
      (slot : Proc)
      → (wind_at v.winds d).state ≡ dw_after
      → (u : Vm W) × ((call_continuation run v cont >>= λ s. dywindadvance s d slot)
          ≡ some (u, (wind_at v.winds d).retval, dywind_step_done))
        × (u.world ≡ v.world)
  unfolding dywindadvance switch_state
  dywindadvance-stale slot state = (
    record (write_wind v d (record (wind_at v.winds d) { state = dw_none })) {
      dywind = (wind_at v.winds d).parent;
    },
    rw call_continuation-stays (rw (dywindadvance, switch_state, state) refl),
    refl,
  )
