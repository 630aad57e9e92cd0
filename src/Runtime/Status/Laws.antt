-- ===== src/Runtime/Status/Laws.antt =====
-- The conversions and predicates of crates/runtime/src/status.rs.
use zestors.Base.{◌≡◌, ℕ, suc, Bool, true, false, not, err, List, [], ◌∷◌, arith}
use zestors.Runtime.Status.{
  ExitError, ExitStatus, ExitResult, ActorStatus, ActorStatusKind, from_error, from_result,
  into_result, is_normal, is_error, should_exit, accepts_messages, is_running, is_suspended,
  is_exiting, is_dead, is_initializing, matches,
}

-- `ExitStatus::from_result` and `ExitStatus::into_result` undo one another, an error converts to the
-- status of its own result, and exactly the status of `Ok(())` is normal.
pub from_result-into_result :
    (s : ExitStatus) (r : ExitResult) (e : ExitError)
    → (from_result (into_result s) ≡ s)
      × (into_result (from_result r) ≡ r)
      × (from_error e ≡ from_result (err e))
      × (is_error s ≡ not (is_normal s))
unfolding from_result into_result from_error is_error is_normal
from_result-into_result s r e = ground arith

abbrev count_true : List Bool → ℕ
count_true [] = 0
count_true (true ∷ bs) = suc (count_true bs)
count_true (false ∷ bs) = count_true bs

-- Every status is of exactly one of the five kinds, the predicate named after a kind holds exactly
-- for its statuses, and a status accepts messages exactly when the actor should not exit.
pub matches-predicates :
    (s : ActorStatus)
    → (is_dead s ≡ matches ActorStatusKind.exited s)
      × (is_initializing s ≡ matches ActorStatusKind.initializing s)
      × (is_running s ≡ matches ActorStatusKind.running s)
      × (is_suspended s ≡ matches ActorStatusKind.suspended s)
      × (is_exiting s ≡ matches ActorStatusKind.exiting s)
      × (count_true
            (is_dead s ∷ is_initializing s ∷ is_running s ∷ is_suspended s ∷ is_exiting s ∷ [])
          ≡ 1)
      × (accepts_messages s ≡ not (should_exit s))
unfolding is_dead is_initializing is_running is_suspended is_exiting matches accepts_messages
    should_exit
matches-predicates s = ground arith
