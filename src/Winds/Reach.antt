-- ===== src/Winds/Reach.antt =====
-- The states of the chain that the operations lead to.
use dummyscheme.Winds.{
  Vm, ContinuationObj, Proc, DyWindStep, calldynamicwind, dywindadvance, call_continuation, capture,
  unwinddynamichain,
}
use dummyscheme.Winds.Jump.{IsValid}
use dummyscheme.Common.{
  none, refl, List, ℕ, ◌∷◌, [], Option, ◌≡◌, arith, Bool, some, sym, ◌⊎◌, ◌∙◌, inr, inl, ap,
}
use dummyscheme.Winds.Keeps.{
  Keeps, IsInside, calldynamicwind-Keeps, dywindadvance-Keeps, call_continuation-Keeps,
  unwinddynamichain-Keeps,
}

pub data Among (c : ContinuationObj) : List ContinuationObj → Type 0 where
  first : {l : List ContinuationObj} → Among c (c ∷ l)
  later : {x : ContinuationObj} {l : List ContinuationObj} → Among c l → Among c (x ∷ l)

among_nothing : {c : ContinuationObj} → Among c [] → ⊥
among_nothing among = elim among [ ]

among_cases :
    {c x : ContinuationObj} {l : List ContinuationObj} → Among c (x ∷ l) → (c ≡ x) ⊎ Among c l
among_cases first = inl refl
among_cases (later there) = inr there

-- A state, and the continuations captured on the way to it: an operation on the chain, other code
-- that leaves it alone, and the call of a continuation that has been captured.
pub data Reach {W : Type 0} (run : Proc → W → W) : Vm W → List ContinuationObj → Type 0 where
  start : (w : W) → Reach run (record { winds = []; dywind = none; world = w }) []
  capture_here : {v : Vm W} {l : List ContinuationObj} → Reach run v l → Reach run v (capture v ∷ l)
  call :
      {v u : Vm W} {l : List ContinuationObj} (args : List Proc) (istail : Bool) (d : ℕ) (p : Proc)
      → Reach run v l
      → calldynamicwind v args istail ≡ some (u, d, p)
      → Reach run u l
  advance :
      {v u : Vm W} {l : List ContinuationObj} (d : ℕ) (slot p : Proc) (k : DyWindStep)
      → Reach run v l
      → dywindadvance v d slot ≡ some (u, p, k)
      → Reach run u l
  other_code :
      {v : Vm W} {l : List ContinuationObj} (w : W)
      → Reach run v l
      → Reach run (record v { world = w }) l
  jump :
      {v u : Vm W} {l : List ContinuationObj} (cont : ContinuationObj)
      → Reach run v l
      → Among cont l
      → call_continuation run v cont ≡ some u
      → Reach run u l
  unwind :
      {v u : Vm W} {l : List ContinuationObj} (fuel : ℕ)
      → Reach run v l
      → unwinddynamichain run fuel v ≡ some u
      → Reach run u l

module _ {W : Type 0} (run : Proc → W → W) where
  known-Keeps : (v u : Vm W) (h : Option ℕ) → Keeps v u → IsInside v.winds h → IsInside u.winds h
  known-Keeps v u h keeps known i at = omega (arith, known i at, keeps.0.more)

  of_Keeps :
      (v u : Vm W) {l : List ContinuationObj}
      → Keeps v u
      → IsValid v
      → ((cont : ContinuationObj) → Among cont l → IsInside v.winds cont.dywind)
      → IsValid u × ((cont : ContinuationObj) → Among cont l → IsInside u.winds cont.dywind)
  of_Keeps v u keeps valid known = (
    record { ordered = keeps.0.parents valid.ordered; inside = keeps.1 },
    λ cont among. known-Keeps v u cont.dywind keeps (known cont among),
  )

  -- In every state that is reached from a start without objects by calls of `dynamic-wind`, the
  -- steps after its thunks, the call of a continuation captured on the way, the unwinding of the
  -- whole chain, and code that leaves the chain alone, each object is younger than its parent,
  -- and the chain and those of the continuations captured start in the store.
  pub Reach-IsValid :
      {v : Vm W} {l : List ContinuationObj}
      → Reach run v l
      → IsValid v × ((cont : ContinuationObj) → Among cont l → IsInside v.winds cont.dywind)
  unfolding capture
  Reach-IsValid (start w) = (
    record { ordered = λ i p at. cc; inside = λ i at. cc },
    λ cont among. absurd (among_nothing among),
  )
  Reach-IsValid (capture_here {v} before) =
      let (valid, known) = Reach-IsValid before in
      (
        valid,
        λ cont among. elim (among_cases among) [
          | inl here ↦
              λ i at. valid.inside i (sym (ap (λ (c : ContinuationObj). c.dywind) here) ∙ at)
          | inr there ↦ known cont there
        ],
      )
  Reach-IsValid (call {v} {u} args istail d p before e) =
      let (valid, known) = Reach-IsValid before in
      of_Keeps v u (calldynamicwind-Keeps v valid args istail u d p e) valid known
  Reach-IsValid (advance {v} {u} d slot p k before e) =
      let (valid, known) = Reach-IsValid before in
      of_Keeps v u (dywindadvance-Keeps v valid d slot u p k e) valid known
  Reach-IsValid (other_code {v} w before) =
      let (valid, known) = Reach-IsValid before in
      (record { ordered = valid.ordered; inside = valid.inside }, known)
  Reach-IsValid (jump {v} {u} cont before among e) =
      let (valid, known) = Reach-IsValid before in
      of_Keeps v u (call_continuation-Keeps run v u cont valid (known cont among) e) valid known
  Reach-IsValid (unwind {v} {u} fuel before e) =
      let (valid, known) = Reach-IsValid before in
      of_Keeps v u (unwinddynamichain-Keeps run fuel v u valid e) valid known
