-- ===== src/Supervisor/RestForOne/Stopping.antt =====
-- crates/supervisor/src/actor/rest_for_one.rs: the part of a cascade that stops children, and what
-- carries it on.
use zestors.Base.{
  ℕ, zero, suc, Option, none, some, Run, returns, panics, ◌>>=◌, Flow, continue, List, [], ◌∷◌,
  ◌++◌, reversed, if◌then◌else◌,
}
use zestors.Supervisor.Supervisee.{Supervisee, stop, is_shutting_down, acquire_restart_permit}
use zestors.Supervisor.Crates.{Crates}
use zestors.Supervisor.Children.{get_mut}
use zestors.Supervisor.Inner.{is_never}
use zestors.Supervisor.Inner
use zestors.Supervisor.RestForOne.Cascade.{
  idle, exiting, restarting, shutting_down, is_current, RestForOne, set_child, shutdown,
  advance_restart, advance_shutdown,
}

-- What the loop of `advance_stop` makes of the next supervisee.
pub data Stop : Type 0 where
  waits_for dead refused : Stop

module _ (X : Crates) where
  -- `remove_spec`. `advance` is `advance_cascade`, whose result it discards.
  unfoldable pub remove_spec_with :
      (RestForOne X → Run (RestForOne X × Flow))
      → ℕ
      → RestForOne X
      → Run (RestForOne X × Option Supervisee)
  unfolding Inner.remove_spec
  remove_spec_with advance name c =
      Inner.remove_spec X c.initializing X.sets.new name c.inner >>= λ left.
      let c' = record c { inner = left.inner; initializing = left.initializing } in
      elim left.removed [
        | none ↦ returns (c', none)
        | some s ↦
            if is_current c'.cascade name
            then (advance c' >>= λ (c'', flow). returns (c'', some s))
            else returns (c', some s)
      ]

  unfoldable pub drop_each :
      (RestForOne X → Run (RestForOne X × Flow)) → List ℕ → RestForOne X → Run (RestForOne X)
  unfolding remove_spec_with
  drop_each advance [] c = returns c
  drop_each advance (name ∷ ns) c =
      remove_spec_with advance name c >>= λ (c', s). drop_each advance ns c'

  -- The state, what became of the supervisee, and `to_restart` and `to_drop`.
  unfoldable pub stop_next :
      ℕ → ℕ → Supervisee → List ℕ → List ℕ → RestForOne X → RestForOne X × Stop × List ℕ × List ℕ
  stop_next now next s to_restart to_drop c =
      let (s1, outcome1) = stop s in
      let (s', granted) = acquire_restart_permit now s in
      let (s2, outcome2) = stop s' in
      if is_never s.spec.cfg.restart_mode
      then (
        set_child X c next s1,
        if is_shutting_down outcome1 then waits_for else dead,
        to_restart,
        to_drop ++ next ∷ [],
      )
      else if granted
      then (
        set_child X c next s2,
        if is_shutting_down outcome2 then waits_for else dead,
        to_restart ++ next ∷ [],
        to_drop,
      )
      else (set_child X c next s', refused, to_restart, to_drop)

  -- The loop of `advance_stop`, on the names in the order in which it takes them: last one first.
  unfoldable pub stop_from :
      (RestForOne X → Run (RestForOne X × Flow))
      → ℕ
      → List ℕ
      → List ℕ
      → List ℕ
      → RestForOne X
      → Run (RestForOne X × Flow)
  unfolding drop_each stop_next advance_restart shutdown
  stop_from advance now [] to_restart to_drop c =
      drop_each advance to_drop c >>= λ c'. advance_restart X (reversed to_restart) c'
  stop_from advance now (next ∷ left) to_restart to_drop c =
      get_mut X c.inner.supervisees next >>= λ found. elim found [
        | none ↦ stop_from advance now left to_restart to_drop c
        | some s ↦
            let (c', became, to_restart', to_drop') = stop_next now next s to_restart to_drop c in
            let rest = stop_from advance now left to_restart' to_drop' c' in
            elim became [
              | waits_for ↦ returns (
                record c' { cascade = exiting next (reversed left) to_restart' to_drop' },
                continue,
              )
              | dead ↦ rest
              | refused ↦ shutdown X c'
            ]
      ]

  -- `advance_cascade`, on fuel: `remove_spec` calls it again only for the name that the cascade waits for,
  -- and there is none while it advances.
  unfoldable pub advance_cascade : ℕ → ℕ → RestForOne X → Run (RestForOne X × Flow)
  unfolding stop_from advance_restart advance_shutdown
  advance_cascade zero now c = panics
  advance_cascade (suc fuel) now c =
      let c' = record c { cascade = idle } in
      elim c.cascade [
        | idle ↦ returns (c', continue)
        | exiting name pending to_restart to_drop ↦
            stop_from (advance_cascade fuel now) now (reversed pending) to_restart to_drop c'
        | restarting name pending ↦ advance_restart X pending c'
        | shutting_down name pending ↦ advance_shutdown X pending c'
      ]

  unfoldable pub remove_spec : ℕ → ℕ → RestForOne X → Run (RestForOne X × Option Supervisee)
  unfolding remove_spec_with advance_cascade
  remove_spec now = remove_spec_with (advance_cascade 2 now)
