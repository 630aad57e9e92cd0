-- ===== src/Runtime/Lifecycle/Moves.antt =====
-- The diagram of an actor's life, and how the `register_*` methods follow it.
use zestors.Base.{ℕ, ◌≡◌, refl, ◌⊎◌, inl, inr, true, false, err, arith}
use zestors.Runtime.Status.{
  ActorStatus, exited, initializing, running, suspended, exiting, ExitStatus, ExitResult,
  from_result, is_dead,
}
use zestors.Runtime.Lifecycle.{
  Lifecycle, InvalidStatusUpdate, Call, apply, register_spawned, register_initialized,
  register_suspended, register_resumed, register_exiting,
}

infix 40 ◌⟶◌
pub data ◌⟶◌ : ActorStatus → ActorStatus → Type 0 where
  spawn : {s : ExitStatus} → exited s ⟶ initializing
  start : initializing ⟶ running
  suspend : running ⟶ suspended
  resume : suspended ⟶ running
  cancel : initializing ⟶ exiting
  stop : running ⟶ exiting
  stop_suspended : suspended ⟶ exiting
  crash_early : {s : ExitStatus} → initializing ⟶ exited s
  crash : {s : ExitStatus} → running ⟶ exited s
  crash_suspended : {s : ExitStatus} → suspended ⟶ exited s
  finish : {s : ExitStatus} → exiting ⟶ exited s

ruleset edges = (
  spawn, start, suspend, resume, cancel, stop, stop_suspended, crash_early, crash, crash_suspended,
  finish,
)

-- Whatever is called, the status stays as it is or follows one edge of the diagram.
pub apply-⟶ :
    (e : Call) (c : Lifecycle) → ((apply e c).status ≡ c.status) ⊎ (c.status ⟶ (apply e c).status)
unfolding apply
apply-⟶ e c = grind (arith, edges)

-- An update that is refused names the status it found and the one it wanted, and changes nothing.
pub refused_unchanged :
    (now : ℕ) (c : Lifecycle) (e : InvalidStatusUpdate)
    → ((register_spawned now c).1 ≡ err e
        → ((register_spawned now c).0 ≡ c)
          × (e ≡ record { from = c.status; to = initializing })
          × (is_dead c.status ≡ false))
      × ((register_initialized c).1 ≡ err e
          → ((register_initialized c).0 ≡ c) × (e ≡ record { from = c.status; to = running }))
      × ((register_suspended c).1 ≡ err e
          → ((register_suspended c).0 ≡ c) × (e ≡ record { from = c.status; to = suspended }))
      × ((register_resumed c).1 ≡ err e
          → ((register_resumed c).0 ≡ c) × (e ≡ record { from = c.status; to = running }))
      × ((register_exiting c).1 ≡ err e
          → ((register_exiting c).0 ≡ c)
            × (e ≡ record { from = c.status; to = exiting })
            × (is_dead c.status ≡ true))
unfolding register_spawned register_initialized register_suspended register_resumed register_exiting
    is_dead
refused_unchanged now c e =
    (λ h. ground arith, λ h. ground arith, λ h. ground arith, λ h. ground arith, λ h. ground arith)

-- An actor that is exiting is not brought back: only its exit changes its status.
pub exiting_is_final :
    (e : Call) (c : Lifecycle)
    → c.status ≡ exiting
    → ((apply e c).status ≡ exiting)
      ⊎ ((now : ℕ) × (reason : ExitResult) × (e ≡ Call.exits now reason)
          × ((apply e c).status ≡ exited (from_result reason)))
unfolding apply
exiting_is_final (Call.exits now reason) c h = inr (now, reason, refl, ground arith)
exiting_is_final e c h = inl (ground arith)
