-- ===== src/Supervisor/OneForOne.antt =====
-- crates/supervisor/src/actor/one_for_one.rs: only the child that exited is restarted.
pub mod Laws
pub mod EventLoop
pub mod Isolation
use zestors.Base.{
  ℕ, Bool, true, false, not, Option, none, some, Result, ok, err, Run, returns, panics, ◌>>=◌, Flow,
  continue, break, if◌then◌else◌,
}
use zestors.Supervision.Intensity.{acquire_permit}
use zestors.Supervisor.Supervisee.{Supervisee, start, acquire_restart_permit}
use zestors.Supervisor.Crates.{Crates}
use zestors.Supervisor.Children.{get_mut, put}
use zestors.Supervisor.Inner.{Inner, ExitReason, reason_requires_restart, flow_of}
use zestors.Supervisor.Inner
use zestors.Supervisor.Runner.{Strategy}

pub record OneForOne (X : Crates) : Type 0 where
  pub inner : Inner X
  pub initializing : X.sets.Names
  pub exiting : X.sets.Names

module _ (X : Crates) where
  unfoldable pub new : Inner X → OneForOne X
  new inner = record { inner = inner; initializing = X.sets.new; exiting = X.sets.new }

  unfoldable pub shutdown : OneForOne X → Run (OneForOne X × Flow)
  unfolding Inner.shutdown
  shutdown c = Inner.shutdown X c.exiting c.inner >>= λ (inner, exiting, flow).
      returns (record c { inner = inner; exiting = exiting }, flow)

  unfoldable pub remove_spec : ℕ → OneForOne X → Run (OneForOne X × Option Supervisee)
  unfolding Inner.remove_spec
  remove_spec name c = Inner.remove_spec X c.initializing c.exiting name c.inner >>= λ left.
      returns (
        record { inner = left.inner; initializing = left.initializing; exiting = left.exiting },
        left.removed,
      )

  -- `handle_exit` past its first two tests, for the supervisee `s` that requires a restart: both permits,
  -- the supervisor's first, and then the restart, or a shutdown.
  unfoldable pub restart : ℕ → ℕ → Supervisee → OneForOne X → Run (OneForOne X × Flow)
  unfolding shutdown
  restart now name s c =
      let (restarter, granted) = acquire_permit now c.inner.restarter in
      let inner = record (c.inner) { restarter = restarter } in
      elim granted [
        | false ↦ shutdown (record c { inner = inner })
        | true ↦
            let (s', allowed) = acquire_restart_permit now s in
            elim allowed [
              | true ↦ returns (
                record c {
                  inner = record inner { supervisees = put X inner.supervisees name (start s').0 };
                },
                continue,
              )
              | false ↦ shutdown (record c {
                inner = record inner { supervisees = put X inner.supervisees name s' };
              })
            ]
      ]

  unfoldable pub handle_exit : ℕ → ℕ → ExitReason → OneForOne X → Run (OneForOne X × Flow)
  unfolding restart remove_spec
  handle_exit now name reason c =
      let (exiting, removed) = X.sets.swap_remove c.exiting name in
      if removed
      then returns (record c { exiting = exiting }, flow_of X exiting)
      else (get_mut X c.inner.supervisees name >>= λ found. elim found [
        | none ↦ returns (c, continue)
        | some s ↦
            if not (reason_requires_restart reason s)
            then (remove_spec name c >>= λ (c', gone). returns (c', continue))
            else restart now name s c
      ])

  -- `impl Strategy`, with the default `after_initialized`.
  abbrev pub strategy : Strategy X
  strategy = record {
    State = OneForOne X;
    inner = λ c. c.inner;
    initializing = λ c. c.initializing;
    with_parts = λ c inner initializing. record c { inner = inner; initializing = initializing };
    handle_exit = handle_exit;
    shutdown = shutdown;
    remove_spec = λ now. remove_spec;
    after_initialized = λ now name c. returns (c, continue);
  }
