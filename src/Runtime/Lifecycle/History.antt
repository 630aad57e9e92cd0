-- ===== src/Runtime/Lifecycle/History.antt =====
-- The histories of spawns and exits hold the newest entries, and no more than a fixed number.
use zestors.Base.{
  ℕ, suc, ◌≤◌, ◌≡◌, refl, inl, inr, List, [], ◌∷◌, ◌++◌, length, length-append, ltb, if◌then◌else◌,
  Bool-cases, ap, arith,
}
use zestors.Runtime.Status.{ExitResult, is_dead}
use zestors.Runtime.Lifecycle.{
  Lifecycle, Call, new, apply, run, remember, keep_n_spawns, keep_n_exits,
}

module _ {A : Type 0} where
  -- The last `n` entries, or all of them.
  abbrev pub latest : ℕ → List A → List A
  latest n [] = []
  latest n (x ∷ xs) = if ltb (length xs) n then x ∷ xs else latest n xs

  latest_all : (n : ℕ) (xs : List A) → length xs ≤ n → latest n xs ≡ xs
  latest_all n [] h = refl
  latest_all n (x ∷ xs) h = ground arith

  pub length-latest : (n : ℕ) (xs : List A) → length (latest n xs) ≤ n
  length-latest n [] = omega arith
  length-latest n (x ∷ xs) = ground (arith, length-latest n xs)

  remember-latest :
      (keep : ℕ) (xs : List A) (x : A)
      → remember keep (latest (suc keep) xs) x ≡ latest (suc keep) (xs ++ x ∷ [])
  unfolding remember
  remember-latest keep [] x = ground arith
  remember-latest keep (y ∷ ys) x = elim (Bool-cases (ltb (length ys) (suc keep))) [
    | inl short ↦
        rw short (ground (arith, length-append ys (x ∷ []), latest_all (suc keep) (ys ++ x ∷ [])))
    | inr long ↦ rw long (ground (arith, length-append ys (x ∷ []), remember-latest keep ys x))
  ]

-- The spawns and exits that went through, oldest first, with nothing dropped.
pub record Log : Type 0 where
  pub spawned : List ℕ
  pub exited : List (ℕ × ExitResult)

-- A spawn goes through when the actor is dead, an exit when it is not.
abbrev record_call : Call → Lifecycle → Log → Log
record_call (Call.spawns now) c log =
    if is_dead c.status then record log { spawned = log.spawned ++ now ∷ [] } else log
record_call (Call.exits now reason) c log =
    if is_dead c.status then log else record log { exited = log.exited ++ (now, reason) ∷ [] }
record_call e c log = log

pub full_log : List Call → Lifecycle → Log → Log
full_log [] c log = log
full_log (e ∷ es) c log = full_log es (apply e c) (record_call e c log)

abbrev pub empty_log : Log
empty_log = record { spawned = []; exited = [] }

pub record KeepsLatest (c : Lifecycle) (log : Log) : Type 0 where
  pub spawns : c.spawns ≡ latest (suc keep_n_spawns) log.spawned
  pub exits : c.exits ≡ latest (suc keep_n_exits) log.exited

apply-KeepsLatest :
    (e : Call) (c : Lifecycle) (log : Log)
    → KeepsLatest c log
    → KeepsLatest (apply e c) (record_call e c log)
unfolding apply is_dead
apply-KeepsLatest (Call.spawns now) c log h =
    ground (arith, remember-latest keep_n_spawns log.spawned now)
apply-KeepsLatest (Call.exits now reason) c log h =
    ground (arith, remember-latest keep_n_exits log.exited (now, reason))
apply-KeepsLatest e c log h = ground arith

run-KeepsLatest :
    (es : List Call) (c : Lifecycle) (log : Log)
    → KeepsLatest c log
    → KeepsLatest (run es c) (full_log es c log)
unfolding run full_log
run-KeepsLatest [] c log h = h
run-KeepsLatest (e ∷ es) c log h =
    run-KeepsLatest es (apply e c) (record_call e c log) (apply-KeepsLatest e c log h)

-- After any calls on a new channel, its histories are the last `keep_n_spawns + 1` spawns and the last
-- `keep_n_exits + 1` exits that went through, so that neither grows past 6 entries.
pub run-new_history :
    (es : List Call)
    → ((run es new).spawns ≡ latest 6 (full_log es new empty_log).spawned)
      × ((run es new).exits ≡ latest 6 (full_log es new empty_log).exited)
      × (length (run es new).spawns ≤ 6)
      × (length (run es new).exits ≤ 6)
unfolding new
run-new_history es =
    let kept = run-KeepsLatest es new empty_log (record { spawns = refl; exits = refl }) in
    let log = full_log es new empty_log in
    (
      kept.spawns,
      kept.exits,
      omega (arith, ap length kept.spawns, length-latest 6 log.spawned),
      omega (arith, ap length kept.exits, length-latest 6 log.exited),
    )
