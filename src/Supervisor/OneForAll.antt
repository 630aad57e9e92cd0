-- ===== src/Supervisor/OneForAll.antt =====
-- crates/supervisor/src/actor/one_for_all.rs: a restart of one child is a restart of all.
pub mod Cascade
pub mod Siblings
pub mod Group
pub mod Laws
pub mod EventLoop
use zestors.Base.{
  ℕ, zero, suc, Bool, true, false, not, ◌&&◌, Option, none, some, Result, ok, err, Run, returns,
  panics, ◌>>=◌, Flow, continue, break, List, [], ◌∷◌, ◌==◌, if◌then◌else◌,
}
use zestors.Supervision.Config.{RestartMode, never}
use zestors.Supervision.Intensity.{acquire_permit}
use zestors.Supervisor.Supervisee.{
  Supervisee, start, stop, is_shutting_down, acquire_restart_permit,
}
use zestors.Supervisor.Crates.{Crates}
use zestors.Supervisor.Children.{get_mut, put, names}
use zestors.Supervisor.Inner.{Inner, ExitReason, reason_requires_restart, flow_of, is_never}
use zestors.Supervisor.Inner
use zestors.Supervisor.Runner.{Strategy}

pub record OneForAll (X : Crates) : Type 0 where
  pub inner : Inner X
  pub initializing : X.sets.Names
  pub exiting : X.sets.Names
  pub restarting : X.sets.Names
  pub cascade_restart : X.sets.Names
  pub cascade_drop : X.sets.Names

module _ (X : Crates) where
  unfoldable pub new : Inner X → OneForAll X
  new inner = record {
    inner = inner;
    initializing = X.sets.new;
    exiting = X.sets.new;
    restarting = X.sets.new;
    cascade_restart = X.sets.new;
    cascade_drop = X.sets.new;
  }

  unfoldable pub shutdown : OneForAll X → Run (OneForAll X × Flow)
  unfolding Inner.shutdown
  shutdown c = Inner.shutdown X c.exiting c.inner >>= λ (inner, exiting, flow).
      returns (record c { inner = inner; exiting = exiting }, flow)

  abbrev pub set_child : OneForAll X → ℕ → Supervisee → OneForAll X
  set_child c name s = record c {
    inner = record (c.inner) { supervisees = put X c.inner.supervisees name s };
  }

  -- What `remove_spec` does past the part that strategies share. `finish` is `finish_cascade`.
  abbrev forget : (OneForAll X → Run (OneForAll X)) → ℕ → OneForAll X → Run (OneForAll X)
  forget finish name c =
      let (restarting, removed) = X.sets.swap_remove c.restarting name in
      let c' = record c { restarting = restarting } in
      (if removed && X.sets.is_empty restarting then finish c' else returns c') >>= λ c''.
      returns (record c'' {
        cascade_restart = (X.sets.swap_remove c''.cascade_restart name).0;
        cascade_drop = (X.sets.swap_remove c''.cascade_drop name).0;
      })

  unfoldable pub remove_spec_with :
      (OneForAll X → Run (OneForAll X)) → ℕ → OneForAll X → Run (OneForAll X × Option Supervisee)
  unfolding Inner.remove_spec
  remove_spec_with finish name c =
      Inner.remove_spec X c.initializing c.exiting name c.inner >>= λ left.
      let c' = record c {
        inner = left.inner;
        initializing = left.initializing;
        exiting = left.exiting;
      } in
      elim left.removed [
        | none ↦ returns (c', none)
        | some s ↦ (forget finish name c' >>= λ c''. returns (c'', some s))
      ]

  unfoldable pub drop_each :
      (OneForAll X → Run (OneForAll X)) → List ℕ → OneForAll X → Run (OneForAll X)
  unfolding remove_spec_with
  drop_each finish [] c = returns c
  drop_each finish (name ∷ ns) c =
      remove_spec_with finish name c >>= λ (c', s). drop_each finish ns c'

  unfoldable pub restart_each : List ℕ → OneForAll X → Run (OneForAll X)
  restart_each [] c = returns c
  restart_each (name ∷ ns) c = get_mut X c.inner.supervisees name >>= λ found. elim found [
    | none ↦ restart_each ns c
    | some s ↦ restart_each ns (set_child c name (start s).0)
  ]

  -- `finish_cascade`, which calls `remove_spec`, which calls it: on fuel. The inner call is never made,
  -- since the last name has left `restarting` then; OneForAll/Cascade proves that 1 is enough.
  unfoldable pub finish_cascade : ℕ → OneForAll X → Run (OneForAll X)
  unfolding drop_each restart_each
  finish_cascade zero c = panics
  finish_cascade (suc fuel) c =
      (drop_each (finish_cascade fuel) (X.sets.to_list c.cascade_drop)
          (record c { cascade_drop = X.sets.new })
        >>= λ c'.
            restart_each (X.sets.to_list c'.cascade_restart)
              (record c' { cascade_restart = X.sets.new }))

  unfoldable pub remove_spec : ℕ → OneForAll X → Run (OneForAll X × Option Supervisee)
  unfolding remove_spec_with finish_cascade
  remove_spec = remove_spec_with (finish_cascade 1)

  abbrev siblings_of : ℕ → OneForAll X → List ℕ → List ℕ
  siblings_of trigger c [] = []
  siblings_of trigger c (n ∷ ns) =
      let rest = siblings_of trigger c ns in
      if not (n == trigger)
        && (not (X.sets.contains c.cascade_restart n) && not (X.sets.contains c.cascade_drop n))
      then n ∷ rest
      else rest

  abbrev pub await_exit : Bool → ℕ → OneForAll X → OneForAll X
  await_exit true name c = record c { restarting = X.sets.insert c.restarting name }
  await_exit false name c = c

  -- One round of the loop in `start_cascade`, for the supervisee `s`, and whether the loop goes on: if it
  -- does not, a permit was refused and the supervisor is to shut down.
  unfoldable pub stop_sibling : ℕ → ℕ → Supervisee → OneForAll X → OneForAll X × Bool
  stop_sibling now name s c =
      let stopped = stop s in
      let (s', granted) = acquire_restart_permit now s in
      let stopped' = stop s' in
      let dropping = record (set_child c name stopped.0) {
        cascade_drop = X.sets.insert c.cascade_drop name;
      } in
      let restarting = record (set_child c name stopped'.0) {
        cascade_restart = X.sets.insert c.cascade_restart name;
      } in
      if is_never s.spec.cfg.restart_mode
      then (await_exit (is_shutting_down stopped.1) name dropping, true)
      else if granted
      then (await_exit (is_shutting_down stopped'.1) name restarting, true)
      else (set_child c name s', false)

  -- The loop; `break` is its early return.
  unfoldable pub stop_siblings : ℕ → List ℕ → OneForAll X → Run (OneForAll X × Flow)
  unfolding stop_sibling
  stop_siblings now [] c = returns (c, continue)
  stop_siblings now (name ∷ ns) c = get_mut X c.inner.supervisees name >>= λ found. elim found [
    | none ↦ stop_siblings now ns c
    | some s ↦
        let (c', more) = stop_sibling now name s c in
        let rest = stop_siblings now ns c' in if more then rest else returns (c', break)
  ]

  unfoldable pub start_cascade : ℕ → ℕ → OneForAll X → Run (OneForAll X × Flow)
  unfolding stop_siblings shutdown finish_cascade
  start_cascade now trigger c = names X c.inner.supervisees >>= λ all.
      (stop_siblings now (siblings_of trigger c all) c >>= λ (c', flow). elim flow [
        | break ↦ shutdown c'
        | continue ↦
            if X.sets.is_empty c'.restarting
            then (finish_cascade 1 c' >>= λ c''. returns (c'', continue))
            else returns (c', continue)
      ])

  -- `handle_exit` past its tests, for the supervisee `s` that requires a restart.
  unfoldable pub restart : ℕ → ℕ → Supervisee → OneForAll X → Run (OneForAll X × Flow)
  unfolding shutdown start_cascade
  restart now name s c =
      let (restarter, granted) = acquire_permit now c.inner.restarter in
      let c' = record c { inner = record (c.inner) { restarter = restarter } } in
      elim granted [
        | false ↦ shutdown c'
        | true ↦
            let (s', allowed) = acquire_restart_permit now s in
            let c'' = set_child c' name s' in
            if allowed
            then start_cascade now name
                (record c'' { cascade_restart = X.sets.insert c''.cascade_restart name })
            else shutdown c''
      ]

  unfoldable pub handle_exit : ℕ → ℕ → ExitReason → OneForAll X → Run (OneForAll X × Flow)
  unfolding restart remove_spec finish_cascade
  handle_exit now name reason c =
      let (exiting, removed) = X.sets.swap_remove c.exiting name in
      let (restarting, stopped) = X.sets.swap_remove c.restarting name in
      let c' = record c { restarting = restarting } in
      if removed
      then returns (record c { exiting = exiting }, flow_of X exiting)
      else if stopped
      then (if X.sets.is_empty restarting
          then (finish_cascade 1 c' >>= λ c''. returns (c'', continue))
          else returns (c', continue))
      else (get_mut X c.inner.supervisees name >>= λ found. elim found [
        | none ↦ returns (c, continue)
        | some s ↦
            if not (reason_requires_restart reason s)
            then (remove_spec name c >>= λ (c'', gone). returns (c'', continue))
            else restart now name s c
      ])

  abbrev pub strategy : Strategy X
  strategy = record {
    State = OneForAll X;
    inner = λ c. c.inner;
    initializing = λ c. c.initializing;
    with_parts = λ c inner initializing. record c { inner = inner; initializing = initializing };
    handle_exit = handle_exit;
    shutdown = shutdown;
    remove_spec = λ now. remove_spec;
    after_initialized = λ now name c. returns (c, continue);
  }
