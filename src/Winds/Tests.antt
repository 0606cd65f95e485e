-- ===== src/Winds/Tests.antt =====
-- The theorems on the chain of `dynamic-wind` at concrete states.
use dummyscheme.Winds.{
  DynamicWindObj, Vm, ContinuationObj, Proc, closure, other_value, dw_body, new_wind,
  checkdywindlambda, calldynamicwind, dywind_step_done, call_continuation, unwinddywindchain, leave,
  enterdywindchain, enter, indywindchain, in_thunk, is_left, dw_after, dywindadvance,
}
use dummyscheme.Winds.Stale.{dywindadvance-stale}
use dummyscheme.Winds.Keeps.{IsInside}
use dummyscheme.Winds.Chains.{IsOrdered}
use dummyscheme.Winds.Jump.{IsValid}
use dummyscheme.Winds.Resume.{Jumps, call_continuation-Jumps}
use dummyscheme.Winds.Normal.{dynamic_wind, dynamic_wind-order}
use dummyscheme.Winds.Reach.{Among, start, call, Reach-IsValid}
use dummyscheme.Common.{
  none, refl, List, ℕ, Option, some, arith, ◌>>=◌, ◌∷◌, [], suc, ◌++◌, false, ◌+◌, ◌≡◌, length,
  true, zero, some_inj,
}

-- The rest of the machine is the list of the procedures called.
abbrev log : Proc → List Proc → List Proc
log p w = w ++ (p ∷ [])

abbrev thunk : ℕ → Proc
thunk id = closure id 0 false

abbrev wind_of : Option ℕ → ℕ → DynamicWindObj
wind_of parent id = record (new_wind parent (thunk id) (thunk (id + 1)) (thunk (id + 2)) false) {
  state = dw_body;
}

-- Two objects with a common parent, the first of them at the head of the chain.
abbrev forked : Vm (List Proc)
forked = record {
  winds = wind_of none 0 ∷ wind_of (some 0) 10 ∷ wind_of (some 0) 20 ∷ [];
  dywind = some 1;
  world = [];
}

forked-IsValid : IsValid forked
forked-IsValid = record { ordered = ordered; inside = λ i at. omega (arith, some_inj at) }
  where
    ordered : IsOrdered forked.winds
    ordered zero p at = cc
    ordered (suc zero) p at = omega (arith, some_inj at)
    ordered (suc (suc zero)) p at = omega (arith, some_inj at)
    ordered (suc (suc (suc i))) p at = cc

abbrev in_other : ContinuationObj
in_other = record { dywind = some 2; dystage = some dw_body }

call_continuation-Jumps_example : Jumps log forked in_other (call_continuation log forked in_other)
call_continuation-Jumps_example =
    call_continuation-Jumps log forked in_other forked-IsValid λ i at. omega (arith, some_inj at)

-- The thunks called, in their order.
jump_log :
    (call_continuation log forked in_other >>= λ u. some u.world) ≡ some (thunk 12 ∷ thunk 20 ∷ [])
unfolding call_continuation unwinddywindchain leave enterdywindchain enter indywindchain in_thunk
    is_left
jump_log = refl

abbrev no_winds : Vm (List Proc)
no_winds = record { winds = []; dywind = none; world = [] }

abbrev thunk_value : Proc → List Proc → Proc
thunk_value p w = other_value (length w)

thunks : (id : ℕ) → checkdywindlambda (thunk id) ≡ true
unfolding checkdywindlambda
thunks id = refl

dynamic_wind-order_example :
    (u : Vm (List Proc)) × (dynamic_wind log thunk_value
        (λ p v. v.winds)
        no_winds
        (thunk 0 ∷ thunk 1 ∷ thunk 2 ∷ [])
        false
      ≡ some (u, other_value 1, dywind_step_done))
    × (u.dywind ≡ none)
    × (u.world ≡ thunk 0 ∷ thunk 1 ∷ thunk 2 ∷ [])
dynamic_wind-order_example =
    dynamic_wind-order log thunk_value (λ p v. v.winds) (λ p v d at. (refl, omega arith)) no_winds
      (thunk 0) (thunk 1) (thunk 2) false (thunks 0) (thunks 1) (thunks 2)

-- The state in the `before` thunk of a first call.
abbrev called : Vm (List Proc)
called = record {
  winds = new_wind none (thunk 0) (thunk 1) (thunk 2) false ∷ [];
  dywind = some 0;
  world = [];
}

called_lem :
    calldynamicwind no_winds (thunk 0 ∷ thunk 1 ∷ thunk 2 ∷ []) false ≡ some (called, 0, thunk 0)
unfolding calldynamicwind checkdywindlambda
called_lem = refl

Reach-IsValid_example :
    IsValid called × ((cont : ContinuationObj) → Among cont [] → IsInside called.winds cont.dywind)
Reach-IsValid_example =
    Reach-IsValid log
      (call (thunk 0 ∷ thunk 1 ∷ thunk 2 ∷ []) false 0 (thunk 0) (start []) called_lem)

-- The `after` thunk runs.
abbrev in_after : Vm (List Proc)
in_after = record {
  winds =
      record (new_wind none (thunk 0) (thunk 1) (thunk 2) false) {
        state = dw_after;
        retval = thunk 7;
      }
      ∷ [];
  dywind = some 0;
  world = [];
}

abbrev of_body : ContinuationObj
of_body = record { dywind = some 0; dystage = some dw_body }

dywindadvance-stale_example :
    (u : Vm (List Proc)) × ((call_continuation log in_after of_body >>= λ s.
    dywindadvance s 0 (thunk 8))
      ≡ some (u, thunk 7, dywind_step_done))
    × (u.world ≡ [])
dywindadvance-stale_example =
    dywindadvance-stale log in_after 0 refl (omega arith) of_body refl refl (thunk 8) refl
