-- ===== src/Runtime/Lifecycle/Reports.antt =====
-- The status of a dead actor is the outcome of its last run.
use zestors.Base.{
  ℕ, ◌≡◌, refl, Option, none, some, List, [], ◌∷◌, last, last-append, length, ltb, if◌then◌else◌,
  arith,
}
use zestors.Runtime.Status.{ActorStatus, exited, ExitStatus, ExitResult, from_result}
use zestors.Runtime.Lifecycle.{
  Lifecycle, Call, new, apply, run, remember, remove_first, keep_n_exits,
}

-- A dead actor's status agrees with its newest exit; one that never ran counts as a normal exit.
abbrev pub Reports : ActorStatus → Option (ℕ × ExitResult) → Type 0
Reports (exited s) none = s ≡ ExitStatus.normal
Reports (exited s) (some (at, reason)) = s ≡ from_result reason
Reports _ _ = Unit

last-remember {ℓ} :
    {A : Type ℓ} (keep : ℕ) (xs : List A) (x : A) → last (remember keep xs x) ≡ some x
unfolding remember
last-remember keep xs x = last-append (if ltb keep (length xs) then remove_first xs else xs) x

apply-Reports :
    (e : Call) (c : Lifecycle)
    → Reports c.status (last c.exits)
    → Reports (apply e c).status (last (apply e c).exits)
unfolding apply
apply-Reports (Call.exits now reason) c h =
    ground (arith, last-remember keep_n_exits c.exits (now, reason))
apply-Reports e c h = ground arith

run-Reports :
    (es : List Call) (c : Lifecycle)
    → Reports c.status (last c.exits)
    → Reports (run es c).status (last (run es c).exits)
unfolding run
run-Reports [] c h = h
run-Reports (e ∷ es) c h = run-Reports es (apply e c) (apply-Reports e c h)

-- After any calls on a new channel, a dead actor's status is the one its newest recorded exit converts
-- to, or a normal exit if none is recorded.
pub run-new-Reports : (es : List Call) → Reports (run es new).status (last (run es new).exits)
unfolding new
run-new-Reports es = run-Reports es new refl
