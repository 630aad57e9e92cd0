-- ===== src/Supervisor/Supervisee/Keeps.antt =====
-- What the operations of a supervisee leave as it is.
use zestors.Base.{ℕ, ◌≡◌, refl, Bool, true, false, some, ok, arith}
use zestors.Supervisor.Supervisee.{
  Supervisee, start, stop, acquire_restart_permit, supervise, SuperviseeItem, SuperviseeState,
  Ready, started, initialized,
}

pub start-spec : (s : Supervisee) → (start s).0.spec ≡ s.spec
unfolding start
start-spec s = refl

pub permit-spec : (now : ℕ) (s : Supervisee) → (acquire_restart_permit now s).0.spec ≡ s.spec
unfolding acquire_restart_permit
permit-spec now s = ground arith

-- Whether an event says that the child is dead.
abbrev pub ends : SuperviseeItem → Bool
ends (started (ok _)) = false
ends (initialized (ok _)) = false
ends _ = true

pub supervise-spec :
    (r : Ready) (s s' : Supervisee) (item : SuperviseeItem)
    → supervise r s ≡ some (s', item)
    → (s'.spec ≡ s.spec) × (ends item ≡ true → s'.state ≡ SuperviseeState.dead)
unfolding supervise
supervise-spec r s s' item h = (ground arith, λ e. ground arith)

pub stop-spec : (s : Supervisee) → (stop s).0.spec ≡ s.spec
unfolding stop
stop-spec s = refl

pub permit-state : (now : ℕ) (s : Supervisee) → (acquire_restart_permit now s).0.state ≡ s.state
unfolding acquire_restart_permit
permit-state now s = ground arith
