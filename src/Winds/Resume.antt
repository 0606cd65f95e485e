-- ===== src/Winds/Resume.antt =====
-- Entering a continuation: the two chains have a common part, which stays.
use mathlib.Core.Path.{subst}
use dummyscheme.Winds.{
  DynamicWindObj, Vm, Proc, wind_at, enter, enterdywindchain, ContinuationObj, is_left,
  call_continuation, in_thunk,
}
use dummyscheme.Winds.Chains.{
  Chain, IsOrdered, head_of, Chain-below, has, indywindchain-has, Chain-of, has-below,
}
use dummyscheme.Winds.Jump.{
  IsValid, befores, in_body, run_all, run_all-append, afters, unwinddywindchain_lem,
}
use dummyscheme.Common.{
  none, List, ℕ, All, Bool, Option, ◌++◌, ◌<◌, false, ◌≡◌, ◌∷◌, get_or-set_ne, true, length, [],
  arith, some, ◌∙◌, suc, ap, ◌==◌, sym, zero, refl, ◌≤◌, ◌&&◌, if◌then◌else◌, ◌+◌, length-append,
}

All-append_right {ℓ κ} : {A : Type ℓ} (P : A → Type κ) (l m : List A) → All P (l ++ m) → All P m
All-append_right P [] m h = h
All-append_right P (x ∷ l) m h = All-append_right P l m h.1

-- The objects entered change no other one.
in_body-other :
    (winds : List DynamicWindObj) (l : List ℕ) (i : ℕ)
    → All (λ j. j < i) l
    → wind_at (in_body winds l) i ≡ wind_at winds i
in_body-other winds [] i h = refl
in_body-other winds (j ∷ l) i (below, h) =
    get_or-set_ne (in_body winds l) j i _ _ (λ e. absurd (omega (arith, below, e)))
    ∙ in_body-other winds l i h

All-append_left {ℓ κ} : {A : Type ℓ} (P : A → Type κ) (l m : List A) → All P (l ++ m) → All P l
All-append_left P [] m h = tt
All-append_left P (x ∷ l) m h = (h.0, All-append_left P l m h.1)

-- Whether there is an object to enter.
abbrev pub is_some_left : List ℕ → Bool
is_some_left [] = false
is_some_left (i ∷ l) = true

-- Whether a thunk of the continuation's object was running, and that object is to be entered.
abbrev pub is_illegal : ContinuationObj → List ℕ → Bool
is_illegal cont entered = in_thunk cont.dystage && is_some_left entered

is_left-entered :
    {W : Type 0} (u : Vm W) (h : Option ℕ) (entered shared : List ℕ)
    → IsOrdered u.winds
    → Chain u.winds h (entered ++ shared)
    → Chain u.winds u.dywind shared
    → length shared ≤ length u.winds
    → is_left u h ≡ is_some_left entered
unfolding is_left
is_left-entered u h [] [] ordered c d few = rw c refl
is_left-entered u h [] (i ∷ shared) ordered (e, c) d few =
    let found = indywindchain-has u.winds (length u.winds) u.dywind (i ∷ shared) i few d in
    let here : has i (i ∷ shared) ≡ true = ground arith in rw (e, is_left, found, here) refl
is_left-entered u h (t ∷ entered) shared ordered (e, c) d few =
    let older =
      Chain-below u.winds ordered t (wind_at u.winds t).parent (entered ++ shared)
        (λ p up. ordered t p up) c in
    let found = indywindchain-has u.winds (length u.winds) u.dywind shared t few d in
    let absent = has-below t shared (All-append_right (λ j. j < t) entered shared older) in
    rw (e, is_left, found, absent) refl

Chain-end :
    (winds : List DynamicWindObj) (h : Option ℕ) (l m : List ℕ)
    → Chain winds h (l ++ m)
    → Chain winds (head_of m) m
Chain-end winds h [] [] c = refl
Chain-end winds h [] (i ∷ m) c = (refl, c.1)
Chain-end winds h (i ∷ l) m c = Chain-end winds (wind_at winds i).parent l m c.1

module _ {W : Type 0} (run : Proc → W → W) where
  -- After the objects `entered` have been entered, to the pointer `h`.
  abbrev entered_state : Vm W → List ℕ → Option ℕ → Vm W
  entered_state v entered h = record {
    winds = in_body v.winds entered;
    dywind = h;
    world = run_all run (befores v.winds entered) v.world;
  }

  enterdywindchain_lem :
      (fuel : ℕ) (v : Vm W) (h : Option ℕ) (entered shared : List ℕ)
      → IsOrdered v.winds
      → Chain v.winds h (entered ++ shared)
      → v.dywind ≡ head_of shared
      → length entered < fuel
      → enterdywindchain run fuel v h (head_of shared) ≡ some (entered_state v entered h)
  unfolding enterdywindchain enter
  enterdywindchain_lem zero v h entered shared ordered c at enough = absurd (omega arith)
  enterdywindchain_lem (suc fuel) v h [] [] ordered c at enough =
      rw (enterdywindchain, c) (ap (λ (p : Option ℕ). some (record v { dywind = p })) at)
  enterdywindchain_lem (suc fuel) v h [] (i ∷ shared) ordered (e, c) at enough =
      let here : (i == i) ≡ true = ground arith in
      rw (enterdywindchain, e, here) (ap (λ (p : Option ℕ). some (record v { dywind = p })) at)
  enterdywindchain_lem (suc fuel) v h (t ∷ entered) shared ordered (e, c) at enough =
      let parent = (wind_at v.winds t).parent in
      let older =
        Chain-below v.winds ordered t parent (entered ++ shared) (λ p up. ordered t p up) c in
      let rest = enterdywindchain_lem fuel v parent entered shared ordered c at (omega arith) in
      let same =
        in_body-other v.winds entered t (All-append_left (λ j. j < t) entered shared older) in
      let done = run_all run (befores v.winds entered) v.world in
      let world =
        ap (λ (d : DynamicWindObj). run d.before done) same
        ∙ sym (
            run_all-append run (befores v.winds entered) ((wind_at v.winds t).before ∷ [])
              v.world) in
      rw
        (
          enterdywindchain,
          e,
          not_head shared (All-append_right (λ j. j < t) entered shared older),
          rest,
        )
        (ap (λ (w : W). some (record (entered_state v (t ∷ entered) (some t)) { world = w })) world)
    where
      not_head :
          (shared : List ℕ)
          → All (λ j. j < t) shared
          → elim (head_of shared) [ none ↦ false | some c ↦ t == c ] ≡ false
      not_head [] below = refl
      not_head (i ∷ shared) below = ground (arith, below.0)

  -- The whole jump
  abbrev pub Jumps : Vm W → ContinuationObj → Option (Vm W) → Type 0
  Jumps v cont result =
      (left shared entered : List ℕ) × Chain v.winds v.dywind (left ++ shared)
      × Chain v.winds cont.dywind (entered ++ shared)
      × All (λ i. has i (entered ++ shared) ≡ false) left
      × (result ≡ (
          if is_illegal cont entered
          then none
          else some (record {
            winds = in_body v.winds entered;
            dywind = cont.dywind;
            world = run_all run (afters v.winds left ++ befores v.winds entered) v.world;
          })))

  -- For a chain of `dynamic-wind` objects in the store, each younger than its parent, and a
  -- continuation whose chain starts in the store: the two chains have a common part, and no
  -- object before it in the current chain is in the continuation's. The call of the continuation
  -- is refused if the continuation was captured in a `before` or `after` thunk and there is an
  -- object to enter; otherwise it calls the `after` of the objects left that are in their body,
  -- the innermost first, then the `before` of the objects entered, the outermost first, puts
  -- these in their body, and the chain is the continuation's.
  pub call_continuation-Jumps :
      (v : Vm W) (cont : ContinuationObj)
      → IsValid v
      → ((i : ℕ) → cont.dywind ≡ some i → i < length v.winds)
      → Jumps v cont (call_continuation run v cont)
  unfolding call_continuation
  call_continuation-Jumps v cont valid known =
      let (l, chain, few) = Chain-of v.winds valid.ordered (length v.winds) v.dywind valid.inside in
      let (t, target, few_target) =
        Chain-of v.winds valid.ordered (length v.winds) cont.dywind known in
      let (left, shared, entered, split, split_target, apart, unwound) =
        unwinddywindchain_lem run (suc (length v.winds)) v cont.dywind l t chain target few_target
          (omega (arith, few)) in
      let c = subst (λ m. Chain v.winds v.dywind m) split chain in
      let d = subst (λ m. Chain v.winds cont.dywind m) split_target target in
      let size : length entered + length shared ≤ length v.winds = omega (
        arith,
        few_target,
        ap (λ (m : List ℕ). length m) split_target,
        length-append entered shared,
      ) in
      let u : Vm W = record v {
        dywind = head_of shared;
        world = run_all run (afters v.winds left) v.world;
      } in
      let legal =
        is_left-entered u cont.dywind entered shared valid.ordered d
          (Chain-end v.winds cont.dywind entered shared d) (omega (arith, size)) in
      let rest =
        enterdywindchain_lem (suc (length v.winds)) u cont.dywind entered shared valid.ordered d
          refl (omega (arith, size)) in
      (
        left,
        shared,
        entered,
        c,
        d,
        subst (λ m. All (λ i. has i m ≡ false) left) split_target apart,
        rw (call_continuation, unwound, legal, rest)
            (ap
              (λ (w : W).
                if is_illegal cont entered
                then none
                else some
                    (record { winds = in_body v.winds entered; dywind = cont.dywind; world = w }))
              (sym (run_all-append run (afters v.winds left) (befores v.winds entered) v.world))),
      )
