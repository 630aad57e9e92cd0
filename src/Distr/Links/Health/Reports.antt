-- ===== src/Distr/Links/Health/Reports.antt =====
-- When a peer is reported unreachable and reachable, and how long it is left alone.
use zestors.Base.{
  ℕ, zero, suc, ◌+◌, ◌-◌, ◌*◌, ◌^◌, ◌≤◌, ◌≡◌, refl, inl, inr, min, Bool, true, false, not, List, [],
  ◌∷◌, ◌++◌, leb, ◌==◌, if◌then◌else◌, arith, Bool-cases, subst, ◌<◌, lt→ltb,
}
use zestors.Distr.Links.{PeerEvent, unreachable, reachable}
use zestors.Distr.Links.Health.{
  u32_max, LinkTimings, Health, healthy, backing_off, succeeded, failed, backoff, Attempt, attempt,
  attempts, duration_max,
}

module _ (timings : LinkTimings) (node : ℕ) where
  -- Whether an attempt is made, and not dropped while the lanes back off.
  abbrev pub tries : Attempt → Health → Bool
  tries a h = not (backing_off a.now h)

  -- The failures in a row, without a limit, after an attempt.
  abbrev pub streak_after : Attempt → Health → ℕ → ℕ
  streak_after a h streak = if tries a h then (if a.connects then 0 else suc streak) else streak

  -- The reports that ought to be made: the third failure in a row makes the peer unreachable, and the
  -- success that ends three failures or more makes it reachable again.
  abbrev pub report_of : Attempt → Health → ℕ → List PeerEvent
  report_of a h streak =
      if tries a h
      then (if a.connects
          then (if leb 3 streak then reachable node ∷ [] else [])
          else (if streak == 2 then unreachable node ∷ [] else []))
      else []

  pub reports : List Attempt → Health → ℕ → List PeerEvent
  reports [] h streak = []
  reports (a ∷ as') h streak =
      report_of a h streak ++ reports as' (attempt timings node a h).0 (streak_after a h streak)

  -- The count stops at its limit, and the report is that of three failures.
  pub record Counts (h : Health) (streak : ℕ) : Type 0 where
    pub count : h.failures ≡ min streak u32_max
    pub reported : h.reported_unreachable ≡ leb 3 streak

  attempt-Counts :
      (a : Attempt) (h : Health) (streak : ℕ)
      → Counts h streak
      → Counts (attempt timings node a h).0 (streak_after a h streak)
        × ((attempt timings node a h).1 ≡ report_of a h streak)
  unfolding attempt succeeded failed
  attempt-Counts a h streak c = elim (Bool-cases (backing_off a.now h)) [
    | inl off ↦ rw off (c, refl)
    | inr on ↦ rw on (elim (Bool-cases a.connects) [
      | inl works ↦ rw works (record { count = omega arith; reported = refl }, rw c.reported refl)
      | inr breaks ↦ rw breaks (
        record { count = omega (arith, c.count); reported = ground (arith, c.count, c.reported) },
        ground (arith, c.count, c.reported),
      )
    ])
  ]

  -- Reports that a peer is unreachable and that it is reachable take turns.
  abbrev pub TakeTurns : Bool → List PeerEvent → Type 0
  TakeTurns b [] = Unit
  TakeTurns false (unreachable n ∷ es) = (n ≡ node) × TakeTurns true es
  TakeTurns true (reachable n ∷ es) = (n ≡ node) × TakeTurns false es
  TakeTurns b (e ∷ es) = ⊥

  pub record Reported (as' : List Attempt) (h : Health) (streak : ℕ) : Type 0 where
    pub as_due : (attempts timings node as' h).1 ≡ reports as' h streak
    pub in_turns : TakeTurns (leb 3 streak) (attempts timings node as' h).1

  failure_turns :
      (streak : ℕ) (es : List PeerEvent)
      → TakeTurns (leb 3 (suc streak)) es
      → TakeTurns (leb 3 streak) ((if streak == 2 then unreachable node ∷ [] else []) ++ es)
  failure_turns zero es t = t
  failure_turns (suc zero) es t = t
  failure_turns (suc (suc zero)) es t = (refl, t)
  failure_turns (suc (suc (suc n))) es t =
      let below : leb 3 (suc (suc (suc n))) ≡ true = ground arith in
      let above : leb 3 (suc (suc (suc (suc n)))) ≡ true = ground arith in
      let other : (suc (suc (suc n)) == 2) ≡ false = ground arith in
      rw (below, other) (subst (λ b. TakeTurns b es) above t)

  success_turns :
      (b : Bool) (es : List PeerEvent)
      → TakeTurns false es
      → TakeTurns b ((if b then reachable node ∷ [] else []) ++ es)
  success_turns true es t = (refl, t)
  success_turns false es t = t

  turns_after :
      (a : Attempt) (h : Health) (streak : ℕ) (es : List PeerEvent)
      → TakeTurns (leb 3 (streak_after a h streak)) es
      → TakeTurns (leb 3 streak) (report_of a h streak ++ es)
  turns_after a h streak es t = split (backing_off a.now h) a.connects t
    where
      split :
          (off works : Bool)
          → TakeTurns (leb 3 (if not off then (if works then 0 else suc streak) else streak)) es
          → TakeTurns (leb 3 streak) (
              (if not off
                then (if works
                    then (if leb 3 streak then reachable node ∷ [] else [])
                    else (if streak == 2 then unreachable node ∷ [] else []))
                else [])
              ++ es)
      split true works u = u
      split false true u = success_turns (leb 3 streak) es u
      split false false u = failure_turns streak es u

  attempts-Reported :
      (as' : List Attempt) (h : Health) (streak : ℕ) → Counts h streak → Reported as' h streak
  unfolding attempts reports
  attempts-Reported [] h streak c = record { as_due = refl; in_turns = tt }
  attempts-Reported (a ∷ as') h streak c =
      let (next, same) = attempt-Counts a h streak c in
      let rest =
        attempts-Reported as' (attempt timings node a h).0 (streak_after a h streak) next in
      record {
        as_due = rw (same, rest.as_due) refl;
        in_turns = rw same (
            turns_after a h streak (attempts timings node as' (attempt timings node a h).0).1
              rest.in_turns);
      }

  -- Whatever attempts the lanes to a peer make, at whatever times and with whatever outcomes, it is
  -- reported unreachable just when the third attempt in a row has failed, attempts that are dropped
  -- while the lanes back off not counted, and reachable again just when the first one after that
  -- succeeds; so the two reports take turns.
  pub attempts-healthy : (as' : List Attempt) → Reported as' healthy 0
  unfolding healthy
  attempts-healthy as' = attempts-Reported as' healthy 0 (record { count = refl; reported = refl })

  -- The pause before the jitter lies between the least and the greatest back-off.
  positive : (n : ℕ) → 1 ≤ 2 ^ n
  positive zero = omega arith
  positive (suc n) = omega (arith, positive n)

  grows : (m n : ℕ) → m ≤ m * 2 ^ n
  grows m n = grind (arith, positive n)

  backoff_bounds :
      (failures : ℕ)
      → timings.reconnect_backoff_min ≤ duration_max
      → (min timings.reconnect_backoff_min timings.reconnect_backoff_max ≤ backoff timings failures)
        × (backoff timings failures ≤ timings.reconnect_backoff_max)
  unfolding backoff
  backoff_bounds failures d =
      let g = grows timings.reconnect_backoff_min (min (failures - 1) 16) in
      (omega arith, omega arith)

  -- After a failure, the lanes leave the peer alone for at least three quarters of the least back-off and at
  -- most five quarters of the greatest: before that nothing is tried and no report is made, and after
  -- it the next message is. The jitter is between these two fractions.
  pub failed-pause :
      (jitter : ℕ → ℕ) (now : ℕ) (h : Health) (next : Attempt)
      → ((b : ℕ) → (3 * b ≤ 4 * jitter b) × (4 * jitter b ≤ 5 * b))
      → timings.reconnect_backoff_min ≤ duration_max
      → let h' = (failed timings jitter now h).0 in
        (4 * next.now
            < 4 * now + 3 * min timings.reconnect_backoff_min timings.reconnect_backoff_max
          → attempt timings node next h' ≡ (h', []))
        × (4 * now + 5 * timings.reconnect_backoff_max ≤ 4 * next.now → tries next h' ≡ true)
  unfolding failed attempt backing_off
  failed-pause jitter now h next j d =
      let failures = min (h.failures + 1) u32_max in
      let b = backoff_bounds failures d in
      let k = j (backoff timings failures) in
      (
        λ early. rw (lt→ltb next.now (now + jitter (backoff timings failures)) (omega arith)) refl,
        λ late. ground arith,
      )
