-- ===== src/Supervisor/Inner.antt =====
-- crates/supervisor/src/actor/mod.rs: the state that the strategies share, and what they all do with it.
pub mod Laws
pub mod Covers
use zestors.Base.{
  ℕ, Bool, true, false, not, ◌&&◌, Option, none, some, Result, ok, err, Run, returns, panics, ◌>>=◌,
  expect, Flow, continue, break, List, [], ◌∷◌, if◌then◌else◌,
}
use zestors.Runtime.Status.{ExitStatus, is_initializing, is_exiting}
use zestors.Runtime.Inbox.{Inbox, register_initialized, register_exiting}
use zestors.Supervision.Config.{RestartMode, always, on_error, never, ChildSpec}
use zestors.Supervision.Intensity.{RestartLimiter}
use zestors.Supervisor.Supervisee.{
  Supervisee, SuperviseeExit, requires_restart, requires_restart_for_init_exit, start,
}
use zestors.Supervisor.Supervisee
use zestors.Supervisor.Crates.{Crates}
use zestors.Supervisor.Children.{SuperviseeMap, get_mut, put, remove, add, stop_all}

-- `SupervisorInner`. Its source only yields events, which are arguments of the event loop.
pub record Inner (X : Crates) : Type 0 where
  pub supervisees : SuperviseeMap X
  pub inbox : Inbox
  pub restarter : RestartLimiter

pub data ExitReason : Type 0 where
  start_failure : ExitReason
  init_exit : ExitStatus → ExitReason
  exit : SuperviseeExit → ExitReason

abbrev pub is_never : RestartMode → Bool
is_never never = true
is_never _ = false

-- `ExitReason::requires_restart`.
unfoldable pub reason_requires_restart : ExitReason → Supervisee → Bool
unfolding requires_restart requires_restart_for_init_exit
reason_requires_restart start_failure s = not (is_never s.spec.cfg.restart_mode)
reason_requires_restart (init_exit status) s = requires_restart_for_init_exit s status
reason_requires_restart (exit e) s = requires_restart s e

module _ (X : Crates) where
  -- `IndexSet::extend`.
  abbrev pub extend : X.sets.Names → List ℕ → X.sets.Names
  extend set [] = set
  extend set (n ∷ ns) = extend (X.sets.insert set n) ns

  abbrev pub flow_of : X.sets.Names → Flow
  flow_of exiting = if X.sets.is_empty exiting then break else continue

  -- The set is that of the names whose exit is waited for.
  unfoldable pub shutdown : X.sets.Names → Inner X → Run (Inner X × X.sets.Names × Flow)
  unfolding register_exiting
  shutdown exiting inner = stop_all X inner.supervisees >>= λ (supervisees, waiting).
      let exiting' = extend exiting waiting in
      returns (
        record inner { supervisees = supervisees; inbox = (register_exiting inner.inbox).0 },
        exiting',
        flow_of exiting',
      )

  -- `Err` is `DuplicateNameError`. A supervisor that is exiting answers `Ok` and takes no child.
  unfoldable pub add_spec : ChildSpec → Inner X → Run (Inner X × Result (Unit {0}) ℕ)
  unfolding is_exiting Supervisee.new
  add_spec spec inner =
      if is_exiting inner.inbox.life.status
      then returns (inner, ok tt)
      else elim (add X inner.supervisees (Supervisee.new spec)) [
        | err name ↦ returns (inner, err name)
        | ok supervisees ↦
            (get_mut X supervisees spec.name >>= λ found. expect found >>= λ s. elim (start s).1 [
              | err e ↦ panics
              | ok begun ↦
                  returns
                    (record inner { supervisees = put X supervisees spec.name (start s).0 }, ok tt)
            ])
      ]

  -- The set is that of the names not yet initialized.
  unfoldable pub handle_initialized : X.sets.Names → ℕ → Inner X → Inner X × X.sets.Names
  unfolding is_initializing register_initialized
  handle_initialized initializing name inner =
      let (initializing', removed) = X.sets.swap_remove initializing name in
      if removed && (is_initializing inner.inbox.life.status && X.sets.is_empty initializing')
      then (record inner { inbox = (register_initialized inner.inbox).0 }, initializing')
      else (inner, initializing')

  -- What `remove_spec` leaves: the state, the two sets, and the supervisee.
  pub record Left : Type 0 where
    pub inner : Inner X
    pub initializing : X.sets.Names
    pub exiting : X.sets.Names
    pub removed : Option Supervisee

  unfoldable pub remove_spec : X.sets.Names → X.sets.Names → ℕ → Inner X → Run Left
  remove_spec initializing exiting name inner =
      remove X inner.supervisees name >>= λ (supervisees, removed).
      let inner' = record inner { supervisees = supervisees } in
      returns (elim removed [
        | none ↦ record {
          inner = inner';
          initializing = initializing;
          exiting = exiting;
          removed = none;
        }
        | some s ↦ record {
          inner = inner';
          initializing = (X.sets.swap_remove initializing name).0;
          exiting = (X.sets.swap_remove exiting name).0;
          removed = some s;
        }
      ])
