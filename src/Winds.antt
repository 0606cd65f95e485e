-- ===== src/Winds.antt =====
-- vm.cpp, the chain of `dynamic-wind`: `calldynamicwind`, `dywindadvance`, `unwinddywindchain`,
-- `enterdywindchain`, `unwinddynamichain` and the part of `callproc` that enters a continuation.
-- The objects of the chain are in a store, and a pointer to one is its index.
pub mod Chains
pub mod Jump
pub mod Resume
pub mod Normal
pub mod Keeps
pub mod Reach
pub mod Stale
mod Tests
use dummyscheme.Common.{
  none, some, zero, suc, [], ◌∷◌, ◌++◌, ◌>>=◌, true, false, ℕ, Bool, List, length, get_or, set,
  Option, if◌then◌else◌, ◌==◌, ◌&&◌, ◌||◌, not,
}

-- A value, as far as it is called: the parameters of a native procedure or a closure, and whether
-- the last one takes the rest.
pub data Proc : Type 0 where
  native_proc : ℕ → ℕ → Bool → Proc
  closure : ℕ → ℕ → Bool → Proc
  other_value : ℕ → Proc

-- `state`: -1, DW_BEFORE, DW_BODY or DW_AFTER.
pub data DwState : Type 0 where
  dw_none dw_before dw_body dw_after : DwState

pub record DynamicWindObj : Type 0 where
  pub parent : Option ℕ
  pub before : Proc
  pub body : Proc
  pub after : Proc
  pub state : DwState
  pub istail : Bool
  pub retval : Proc

-- What is not part of the chain is `world`.
pub record Vm (W : Type 0) : Type 0 where
  pub winds : List DynamicWindObj
  pub dywind : Option ℕ
  pub world : W

-- `dystage` is the state of the object, or 0, which is `none`.
pub record ContinuationObj : Type 0 where
  pub dywind : Option ℕ
  pub dystage : Option DwState

pub data DyWindStep : Type 0 where
  dywind_step_call dywind_step_done : DyWindStep

-- As an object is made.
abbrev pub blank_wind : DynamicWindObj
blank_wind = record {
  parent = none;
  before = other_value 0;
  body = other_value 0;
  after = other_value 0;
  state = dw_none;
  istail = false;
  retval = other_value 0;
}

-- As `calldynamicwind` fills it.
abbrev pub new_wind : Option ℕ → Proc → Proc → Proc → Bool → DynamicWindObj
new_wind parent before body after istail = record {
  parent = parent;
  before = before;
  body = body;
  after = after;
  state = dw_before;
  istail = istail;
  retval = other_value 0;
}

abbrev pub wind_at : List DynamicWindObj → ℕ → DynamicWindObj
wind_at winds i = get_or winds i blank_wind

-- A procedure that can be called without arguments.
unfoldable pub checkdywindlambda : Proc → Bool
checkdywindlambda (native_proc id argnum argrest) = argnum == 0 || argnum == 1 && argrest
checkdywindlambda (closure id argnum argrest) = argnum == 0 || argnum == 1 && argrest
checkdywindlambda (other_value id) = false

-- `d == dy` for some `d` of the chain, with as many rounds as given.
unfoldable pub indywindchain : ℕ → List DynamicWindObj → Option ℕ → ℕ → Bool
indywindchain fuel winds none dy = false
indywindchain zero winds (some d) dy = false
indywindchain (suc fuel) winds (some d) dy =
    let rest = indywindchain fuel winds (wind_at winds d).parent dy in
    if d == dy then true else rest

-- `cont->dystage == DW_BEFORE || cont->dystage == DW_AFTER`
unfoldable pub in_thunk : Option DwState → Bool
in_thunk none = false
in_thunk (some dw_none) = false
in_thunk (some dw_before) = true
in_thunk (some dw_body) = false
in_thunk (some dw_after) = true

module _ {W : Type 0} where
  -- With the arguments on the stack or in a list; the new object, and the procedure to call next.
  unfoldable pub calldynamicwind : Vm W → List Proc → Bool → Option (Vm W × ℕ × Proc)
  calldynamicwind v (before ∷ body ∷ after ∷ []) istail =
      if checkdywindlambda before && checkdywindlambda body && checkdywindlambda after
      then some (
        record v {
          winds = v.winds ++ (new_wind v.dywind before body after istail ∷ []);
          dywind = some (length v.winds);
        },
        length v.winds,
        before,
      )
      else none
  calldynamicwind v [] istail = none
  calldynamicwind v (before ∷ []) istail = none
  calldynamicwind v (before ∷ body ∷ []) istail = none
  calldynamicwind v (before ∷ body ∷ after ∷ more ∷ rest) istail = none

  -- A field of an object is changed.
  abbrev pub write_wind : Vm W → ℕ → DynamicWindObj → Vm W
  write_wind v d w = record v { winds = set v.winds d w }

  -- The switch on the state, with the object and the slot with the result of the procedure called.
  unfoldable pub switch_state : Vm W → ℕ → DynamicWindObj → Proc → Option (Vm W × Proc × DyWindStep)
  switch_state v d dy slot = elim dy.state [
    | dw_before ↦ some (write_wind v d (record dy { state = dw_body }), dy.body, dywind_step_call)
    | dw_body ↦
        some (
          write_wind v d (record dy { state = dw_after; retval = slot }),
          dy.after,
          dywind_step_call,
        )
    | dw_after ↦ some (
      record (write_wind v d (record dy { state = dw_none })) { dywind = dy.parent },
      dy.retval,
      dywind_step_done,
    )
    | dw_none ↦ none
  ]

  unfoldable pub dywindadvance : Vm W → ℕ → Proc → Option (Vm W × Proc × DyWindStep)
  dywindadvance v d slot = switch_state v d (wind_at v.winds d) slot

  -- What `callcc` stores in the continuation.
  unfoldable pub capture : Vm W → ContinuationObj
  capture v = record {
    dywind = v.dywind;
    dystage = elim v.dywind [ none ↦ none | some d ↦ some (wind_at v.winds d).state ];
  }

  -- `head != NULL && !indywindchain(vm->dywind, head)`
  unfoldable pub is_left : Vm W → Option ℕ → Bool
  is_left u none = false
  is_left u (some head) = not (indywindchain (length u.winds) u.winds u.dywind head)

-- `runthunk` hides the head of the chain from the procedure and puts it back, also when it raises
-- an error: `run` is what the procedure does to the rest of the machine. A procedure that itself
-- calls a continuation, and so changes objects of the store, is left out.
module _ {W : Type 0} (run : Proc → W → W) where
  -- The body of the loops that unwind, with the object at the head of the chain.
  unfoldable pub leave : Vm W → ℕ → Vm W
  leave v d =
      let dy = wind_at v.winds d in
      record v {
        dywind = dy.parent;
        world = elim dy.state [
          | dw_body ↦ run dy.after v.world
          | dw_none ↦ v.world
          | dw_before ↦ v.world
          | dw_after ↦ v.world
        ];
      }

  unfoldable pub unwinddywindchain : ℕ → Vm W → Option ℕ → Option (Vm W)
  unwinddywindchain zero v stop = none
  unwinddywindchain (suc fuel) v stop = elim v.dywind [
    | none ↦ some v
    | some d ↦
        let rest = unwinddywindchain fuel (leave v d) stop in
        if indywindchain (length v.winds) v.winds stop d then some v else rest
  ]

  -- The `before` thunk, and the object is in its body again.
  unfoldable pub enter : Vm W → ℕ → Vm W
  enter v t =
      let dy = wind_at v.winds t in
      record v {
        winds = set v.winds t (record dy { state = dw_body });
        dywind = some t;
        world = run dy.before v.world;
      }

  unfoldable pub enterdywindchain : ℕ → Vm W → Option ℕ → Option ℕ → Option (Vm W)
  enterdywindchain fuel v none current = some v
  enterdywindchain zero v (some t) current = none
  enterdywindchain (suc fuel) v (some t) current =
      let rest =
        enterdywindchain fuel v (wind_at v.winds t).parent current >>= λ u. some (enter u t) in
      if elim current [ none ↦ false | some c ↦ t == c ] then some v else rest

  -- The call of a continuation, up to its frames; `none` is that it is illegal to enter it.
  unfoldable pub call_continuation : Vm W → ContinuationObj → Option (Vm W)
  call_continuation v cont =
      let fuel = suc (length v.winds) in
      unwinddywindchain fuel v cont.dywind >>= λ u.
      if in_thunk cont.dystage && is_left u cont.dywind
      then none
      else enterdywindchain fuel u cont.dywind u.dywind

  -- With as many rounds as given.
  unfoldable pub unwinddynamichain : ℕ → Vm W → Option (Vm W)
  unwinddynamichain zero v = none
  unwinddynamichain (suc fuel) v = elim v.dywind [
    | none ↦ some v
    | some d ↦ unwinddynamichain fuel (leave v d)
  ]
