-- ===== src/Supervisor/Runner/Safety.antt =====
-- An invariant of one round of the event loop is one of the loop.
use zestors.Base.{
  ℕ, ◌≡◌, refl, Run, returns, panics, ◌>>=◌, Run-cases, Flow, continue, break, List, [], ◌∷◌, inl,
  inr, subst,
}
use zestors.Supervisor.Crates.{Crates}
use zestors.Supervisor.Runner.{Strategy, no_reply, Event, round, run_events}

-- A call that returns, in a state of which `Inv` holds if the loop goes on, and `End` if it is to end.
abbrev pub Ends {ℓ} : {C : Type ℓ} → (C → Type 0) → (C → Type 0) → Run (C × Flow) → Type 0
Ends Inv End panics = ⊥
Ends Inv End (returns (c, continue)) = Inv c
Ends Inv End (returns (c, break)) = End c

-- The invariant holds at the end too.
abbrev pub Good {ℓ} : {C : Type ℓ} → (C → Type 0) → (C → Type 0) → Run (C × Flow) → Type 0
Good Inv Done m = Ends Inv (λ c. Inv c × Done c) m

pub Good-flow {ℓ} :
    {C : Type ℓ} (Inv Done : C → Type 0) (c : C) (flow : Flow)
    → Inv c
    → (flow ≡ break → Done c)
    → Good Inv Done (returns (c, flow))
Good-flow Inv Done c continue h d = h
Good-flow Inv Done c break h d = (h, d refl)

pub Good-returns {ℓ} :
    {C : Type ℓ} (Inv Done : C → Type 0) (m : Run (C × Flow))
    → Good Inv Done m
    → (r : C × Flow) × (m ≡ returns r) × Good Inv Done (returns r)
Good-returns Inv Done panics h = absurd h
Good-returns Inv Done (returns r) h = (r, refl, h)

-- A round forgets the reply.
pub Ends-silent {ℓ} :
    {C : Type ℓ} (Inv End : C → Type 0) (m : Run (C × Flow))
    → Ends Inv End m
    → Ends Inv End
        ((m >>= λ (c, flow). returns (c, flow, no_reply)) >>= λ (c, flow, reply). returns (c, flow))
Ends-silent Inv End panics h = h
Ends-silent Inv End (returns (c, flow)) h = h

pub Good-silent {ℓ} :
    {C : Type ℓ} (Inv Done : C → Type 0) (m : Run (C × Flow))
    → Good Inv Done m
    → Good Inv Done
        ((m >>= λ (c, flow). returns (c, flow, no_reply)) >>= λ (c, flow, reply). returns (c, flow))
Good-silent Inv Done m h = Ends-silent Inv (λ c. Inv c × Done c) m h

module _ (X : Crates) (S : Strategy X) (Inv End : S.State → Type 0)
    (Permits : Event → S.State → Type 0) where
  -- Each event is permitted in the state in which it comes.
  unfoldable pub AllPermitted : List (ℕ × Event) → S.State → Type 0
  AllPermitted [] c = Unit
  AllPermitted ((now, e) ∷ es) c =
      Permits e c
      × ((c' : S.State) → round X S now e c ≡ returns (c', continue) → AllPermitted es c')

  pub run_events-Ends :
      ((now : ℕ) (e : Event) (c : S.State) → Inv c → Permits e c → Ends Inv End (round X S now e c))
      → (es : List (ℕ × Event)) (c : S.State) → Inv c
      → AllPermitted es c
      → Ends Inv End (run_events X S es c)
  unfolding run_events AllPermitted
  run_events-Ends each [] c h ok_all = h
  run_events-Ends each ((now, e) ∷ es) c h ok_all = elim (Run-cases (round X S now e c)) [
    | inr p ↦ absurd (subst (Ends Inv End) p (each now e c h ok_all.0))
    | inl (r, p) ↦
        go (λ c' h' q. run_events-Ends each es c' h' (ok_all.1 c' q)) r p
          (subst (Ends Inv End) p (each now e c h ok_all.0))
  ]
    where
      go :
          ((c' : S.State)
            → Inv c'
            → round X S now e c ≡ returns (c', continue)
            → Ends Inv End (run_events X S es c'))
          → (r : S.State × Flow) → round X S now e c ≡ returns r
          → Ends Inv End (returns r)
          → Ends Inv End (run_events X S ((now, e) ∷ es) c)
      go rest (c', continue) p good = rw (run_events, p) (rest c' good p)
      go rest (c', break) p good = rw (run_events, p) good
