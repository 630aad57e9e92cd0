-- ===== src/Supervisor/RestForOne/Cascade.antt =====
-- crates/supervisor/src/actor/rest_for_one.rs: the cascade and how it advances. A `Vec` that is popped
-- from the back is kept as it is, in start order.
use zestors.Base.{
  ℕ, Bool, true, false, Option, none, some, ok, err, Run, returns, ◌>>=◌, Flow, continue, break,
  List, [], ◌∷◌, reversed, ◌==◌, elem, if◌then◌else◌,
}
use zestors.Runtime.Inbox.{register_exiting}
use zestors.Supervisor.Supervisee.{Supervisee, start, stop, is_shutting_down}
use zestors.Supervisor.Crates.{Crates}
use zestors.Supervisor.Children.{get_mut, put, names}
use zestors.Supervisor.Inner.{Inner}

pub data Cascade : Type 0 where
  idle : Cascade
  -- `current`, `pending`, `to_restart` and `to_drop`.
  exiting : ℕ → List ℕ → List ℕ → List ℕ → Cascade
  -- `current` and `pending`.
  restarting : ℕ → List ℕ → Cascade
  shutting_down : ℕ → List ℕ → Cascade

unfoldable pub current : Cascade → Option ℕ
current idle = none
current (exiting name _ _ _) = some name
current (restarting name _) = some name
current (shutting_down name _) = some name

unfoldable pub pending_contains : Cascade → ℕ → Bool
pending_contains (exiting _ pending _ _) name = elem name pending
pending_contains (shutting_down _ pending) name = elem name pending
pending_contains _ name = false

-- Whether the cascade waits for this name.
abbrev pub is_current : Cascade → ℕ → Bool
is_current cascade name = elim (current cascade) [ none ↦ false | some n ↦ n == name ]

pub record RestForOne (X : Crates) : Type 0 where
  pub inner : Inner X
  pub initializing : X.sets.Names
  pub cascade : Cascade

module _ (X : Crates) where
  unfoldable pub new : Inner X → RestForOne X
  new inner = record { inner = inner; initializing = X.sets.new; cascade = idle }

  abbrev pub set_child : RestForOne X → ℕ → Supervisee → RestForOne X
  set_child c name s = record c {
    inner = record (c.inner) { supervisees = put X c.inner.supervisees name s };
  }

  -- The loop of `advance_shutdown`, on the names in the order in which it takes them: last one first.
  unfoldable pub shutdown_from : List ℕ → RestForOne X → Run (RestForOne X × Flow)
  shutdown_from [] c = returns (record c { cascade = idle }, break)
  shutdown_from (next ∷ left) c = get_mut X c.inner.supervisees next >>= λ found. elim found [
    | none ↦ shutdown_from left c
    | some s ↦
        let (s', outcome) = stop s in
        let c' = set_child c next s' in
        let rest = shutdown_from left c' in
        if is_shutting_down outcome
        then returns (record c' { cascade = shutting_down next (reversed left) }, continue)
        else rest
  ]

  unfoldable pub advance_shutdown : List ℕ → RestForOne X → Run (RestForOne X × Flow)
  unfolding shutdown_from
  advance_shutdown pending c = shutdown_from (reversed pending) c

  abbrev pub is_shutdown : Cascade → Bool
  is_shutdown (shutting_down _ _) = true
  is_shutdown _ = false

  unfoldable pub shutdown : RestForOne X → Run (RestForOne X × Flow)
  unfolding advance_shutdown register_exiting
  shutdown c =
      if is_shutdown c.cascade
      then returns (c, continue)
      else (let inner = record (c.inner) { inbox = (register_exiting c.inner.inbox).0 } in
          names X inner.supervisees >>= λ pending.
          advance_shutdown pending (record c { inner = inner }))

  -- The loop of `advance_restart`.
  unfoldable pub advance_restart : List ℕ → RestForOne X → Run (RestForOne X × Flow)
  advance_restart [] c = returns (record c { cascade = idle }, continue)
  advance_restart (next ∷ pending) c = get_mut X c.inner.supervisees next >>= λ found. elim found [
    | none ↦ advance_restart pending c
    | some s ↦
        let (s', result) = start s in
        let c' = set_child c next s' in
        let rest = advance_restart pending c' in
        elim result [
          | ok begun ↦
              if begun
              then returns (record c' { cascade = restarting next pending }, continue)
              else rest
          | err e ↦ rest
        ]
  ]
