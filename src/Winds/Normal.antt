-- ===== src/Winds/Normal.antt =====
-- A call of `dynamic-wind` that is not left by a continuation.
use dummyscheme.Winds.{
  DynamicWindObj, Vm, Proc, DwState, wind_at, blank_wind, switch_state, calldynamicwind,
  dywindadvance, DyWindStep, checkdywindlambda, dywind_step_done, dw_before, dw_body, other_value,
  dw_after, dw_none,
}
use dummyscheme.Common.{
  refl, List, Bool, ◌++◌, ℕ, Option, ◌∷◌, ◌≡◌, length, set, ◌>>=◌, [], some, ◌∙◌, get_or-set_self,
  ◌≤◌, ◌<◌, arith, length-set, true, ap, length-append,
}

-- What a thunk does, given what it does to the rest of the machine, the value that it gives, and
-- the objects that it makes and leaves.
abbrev pub call_thunk :
    {W : Type 0} → (Proc → W → W) → (Proc → Vm W → List DynamicWindObj) → Proc → Vm W → Vm W
call_thunk run touch p v = record v { winds = touch p v; world = run p v.world }

-- The call, and `dywindadvance` after each thunk with the value that it gives.
unfoldable pub dynamic_wind :
    {W : Type 0}
    → (Proc → W → W)
    → (Proc → W → Proc)
    → (Proc → Vm W → List DynamicWindObj)
    → Vm W
    → List Proc
    → Bool
    → Option (Vm W × Proc × DyWindStep)
dynamic_wind run value touch v args istail = calldynamicwind v args istail >>= λ made.
    dywindadvance (call_thunk run touch made.2 made.0) made.1 (value made.2 made.0.world) >>= λ a.
    dywindadvance (call_thunk run touch a.1 a.0) made.1 (value a.1 a.0.world) >>= λ b.
    dywindadvance (call_thunk run touch b.1 b.0) made.1 (value b.1 b.0.world)

wind_at-append :
    (winds : List DynamicWindObj) (d : DynamicWindObj)
    → wind_at (winds ++ (d ∷ [])) (length winds) ≡ d
wind_at-append [] d = refl
wind_at-append (x ∷ winds) d = wind_at-append winds d

-- The thunks leave the object of the call as it is, and take none away.
abbrev pub IsQuiet : {W : Type 0} → (Proc → Vm W → List DynamicWindObj) → Type 0
IsQuiet {W} touch =
    (p : Proc) (v : Vm W) (d : ℕ)
    → v.dywind ≡ some d
    → (wind_at (touch p v) d ≡ wind_at v.winds d) × (length v.winds ≤ length (touch p v))

module _ {W : Type 0} (run : Proc → W → W) (value : Proc → W → Proc)
    (touch : Proc → Vm W → List DynamicWindObj) (quiet : IsQuiet touch) (v : Vm W)
    (before body after : Proc) (istail : Bool) where
  -- The object of the call.
  object : DwState → Proc → DynamicWindObj
  object state retval = record {
    parent = v.dywind;
    before = before;
    body = body;
    after = after;
    state = state;
    istail = istail;
    retval = retval;
  }

  -- The object stands in the store, at the head of the chain.
  Stands : Vm W → DynamicWindObj → Type 0
  Stands s w =
      (s.dywind ≡ some (length v.winds))
      × (wind_at s.winds (length v.winds) ≡ w)
      × (length v.winds < length s.winds)

  Stands-call_thunk :
      (s : Vm W) (w : DynamicWindObj) (p : Proc) → Stands s w → Stands (call_thunk run touch p s) w
  unfolding Stands
  Stands-call_thunk s w p (at, held, inside) =
      let (same, more) = quiet p s (length v.winds) at in
      (at, same ∙ held, omega (arith, inside, more))

  -- The state changes of the object.
  Stands-write :
      (s : Vm W) (w u : DynamicWindObj)
      → Stands s w
      → Stands (record s { winds = set s.winds (length v.winds) u }) u
  unfolding Stands
  Stands-write s w u (at, held, inside) = (
    at,
    get_or-set_self s.winds (length v.winds) u blank_wind inside,
    omega (arith, inside, length-set s.winds (length v.winds) u),
  )

  -- One step from each of the three states.
  Stands-advance :
      (s : Vm W) (w : DynamicWindObj) (slot : Proc)
      → Stands s w
      → dywindadvance s (length v.winds) slot ≡ switch_state s (length v.winds) w slot
  unfolding dywindadvance Stands
  Stands-advance s w slot (at, held, inside) = ap (λ u. switch_state s (length v.winds) u slot) held

  -- For three procedures that can be called without arguments, and thunks that leave the object
  -- of the call as it is and take no object away, `dynamic-wind` with the steps after each thunk
  -- calls `before`, `body` and `after` in this order, gives the value of `body`, and leaves the
  -- chain as it was.
  pub dynamic_wind-order :
      checkdywindlambda before ≡ true
      → checkdywindlambda body ≡ true
      → checkdywindlambda after ≡ true
      → (u : Vm W) × (dynamic_wind run value touch v (before ∷ body ∷ after ∷ []) istail
          ≡ some (u, value body (run before v.world), dywind_step_done))
        × (u.dywind ≡ v.dywind)
        × (u.world ≡ run after (run body (run before v.world)))
  unfolding dynamic_wind calldynamicwind switch_state object Stands
  dynamic_wind-order can_before can_body can_after =
      let d = length v.winds in
      let made : Vm W = record v {
        winds = v.winds ++ (object dw_before (other_value 0) ∷ []);
        dywind = some d;
      } in
      let first : Stands made (object dw_before (other_value 0)) = (
        refl,
        wind_at-append v.winds (object dw_before (other_value 0)),
        omega (arith, length-append v.winds (object dw_before (other_value 0) ∷ [])),
      ) in
      let s1 = call_thunk run touch before made in
      let h1 = Stands-call_thunk made (object dw_before (other_value 0)) before first in
      let step1 = Stands-advance s1 (object dw_before (other_value 0)) (value before v.world) h1 in
      let a : Vm W = record s1 { winds = set s1.winds d (object dw_body (other_value 0)) } in
      let second =
        Stands-write s1 (object dw_before (other_value 0)) (object dw_body (other_value 0)) h1 in
      let s2 = call_thunk run touch body a in
      let h2 = Stands-call_thunk a (object dw_body (other_value 0)) body second in
      let result = value body (run before v.world) in
      let step2 = Stands-advance s2 (object dw_body (other_value 0)) result h2 in
      let b : Vm W = record s2 { winds = set s2.winds d (object dw_after result) } in
      let third = Stands-write s2 (object dw_body (other_value 0)) (object dw_after result) h2 in
      let s3 = call_thunk run touch after b in
      let h3 = Stands-call_thunk b (object dw_after result) after third in
      let step3 =
        Stands-advance s3 (object dw_after result) (value after (run body (run before v.world)))
          h3 in
      (
        record s3 { winds = set s3.winds d (object dw_none result); dywind = v.dywind },
        rw (dynamic_wind, calldynamicwind, can_before, can_body, can_after, step1, step2, step3)
            refl,
        refl,
        refl,
      )
