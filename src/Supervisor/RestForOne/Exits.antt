-- ===== src/Supervisor/RestForOne/Exits.antt =====
-- crates/supervisor/src/actor/rest_for_one.rs: how an exit starts, widens or advances a cascade.
-- The source's debug assertions are left out.
use zestors.Base.{
  ℕ, zero, suc, true, false, not, Option, none, some, Run, returns, panics, ◌>>=◌, expect, Flow,
  continue, List, [], ◌∷◌, ◌++◌, reversed, elem, ◌==◌, leb, min, max, ◌-◌, if◌then◌else◌,
}
use zestors.Supervision.Intensity.{acquire_permit}
use zestors.Supervisor.Supervisee.{Supervisee, start, acquire_restart_permit}
use zestors.Supervisor.Crates.{Crates}
use zestors.Supervisor.Children.{get_mut, names}
use zestors.Supervisor.Inner.{ExitReason, reason_requires_restart}
use zestors.Supervisor.Runner.{Strategy}
use zestors.Supervisor.RestForOne.Cascade.{
  Cascade, idle, exiting, restarting, shutting_down, is_current, pending_contains, RestForOne,
  set_child, shutdown,
}
use zestors.Supervisor.RestForOne.Stopping.{advance_cascade, stop_from, remove_spec}

-- `iter().position(..)`.
abbrev pub position : ℕ → List ℕ → Option ℕ
position name [] = none
position name (n ∷ ns) =
    let rest = position name ns in
    if n == name then some 0 else elim rest [ none ↦ none | some i ↦ some (suc i) ]

-- `list[from..]` and `list[from..to]`.
abbrev pub skip : ℕ → List ℕ → List ℕ
skip zero ns = ns
skip (suc i) [] = []
skip (suc i) (n ∷ ns) = skip i ns

abbrev pub take_first : ℕ → List ℕ → List ℕ
take_first zero ns = []
take_first (suc i) [] = []
take_first (suc i) (n ∷ ns) = n ∷ take_first i ns

abbrev pub unsettled : List ℕ → List ℕ → List ℕ
unsettled settled [] = []
unsettled settled (n ∷ ns) =
    let rest = unsettled settled ns in if elem n settled then rest else n ∷ rest

-- Names with their positions. `pos_of` panics on a name that is not there.
abbrev positions : List ℕ → List ℕ → Run (List (ℕ × ℕ))
positions all [] = returns []
positions all (n ∷ ns) =
    expect (position n all) >>= λ i. positions all ns >>= λ rest. returns ((i, n) ∷ rest)

-- `sort_by_key`, which is stable.
abbrev insert_sorted : ℕ × ℕ → List (ℕ × ℕ) → List (ℕ × ℕ)
insert_sorted p [] = p ∷ []
insert_sorted p (q ∷ qs) =
    let rest = insert_sorted p qs in if leb p.0 q.0 then p ∷ q ∷ qs else q ∷ rest

abbrev sorted : List (ℕ × ℕ) → List (ℕ × ℕ)
sorted [] = []
sorted (p ∷ ps) = insert_sorted p (sorted ps)

-- `dedup`: neighbours that are the same.
abbrev deduped : List ℕ → List ℕ
deduped [] = []
deduped (p ∷ []) = p ∷ []
deduped (p ∷ q ∷ qs) = let rest = deduped (q ∷ qs) in if p == q then rest else p ∷ rest

abbrev unplaced : List (ℕ × ℕ) → List ℕ
unplaced [] = []
unplaced (p ∷ ps) = p.1 ∷ unplaced ps

-- `sort_by_key` and `dedup`. Fewer than two names are sorted without a look at their positions.
unfoldable pub sort_pending : List ℕ → List ℕ → Run (List ℕ)
sort_pending all [] = returns []
sort_pending all (n ∷ []) = returns (n ∷ [])
sort_pending all (n ∷ m ∷ ns) =
    positions all (n ∷ m ∷ ns) >>= λ placed. returns (deduped (unplaced (sorted placed)))

module _ (X : Crates) where
  unfoldable pub start_cascade : ℕ → ℕ → RestForOne X → Run (RestForOne X × Flow)
  unfolding stop_from advance_cascade
  start_cascade now trigger c = names X c.inner.supervisees >>= λ all.
      (expect (position trigger all) >>= λ i.
      stop_from X (advance_cascade X 1 now) now (reversed (skip (suc i) all)) (trigger ∷ []) [] c)

  unfoldable pub merge_into_stopping :
      ℕ → ℕ → List ℕ → List ℕ → List ℕ → RestForOne X → Run (RestForOne X × Flow)
  unfolding sort_pending
  merge_into_stopping trigger now_exiting old_pending to_restart to_drop c =
      names X c.inner.supervisees >>= λ all.
      (expect (position trigger all) >>= λ i.
      (expect (position now_exiting all) >>= λ j.
      let low = min i j in
      let between = take_first (max i j - suc low) (skip (suc low) all) in
      let pending = unsettled (to_restart ++ to_drop) between ++ old_pending in
      (sort_pending all pending >>= λ pending'. returns (
        record c { cascade = exiting now_exiting pending' (to_restart ++ trigger ∷ []) to_drop },
        continue,
      ))))

  -- `handle_cascade_current_exit` while the cascade is restarting.
  unfoldable pub retry_current : ℕ → ℕ → ExitReason → RestForOne X → Run (RestForOne X × Flow)
  unfolding advance_cascade remove_spec shutdown
  retry_current now name reason c = get_mut X c.inner.supervisees name >>= λ found. elim found [
    | none ↦ advance_cascade X 2 now c
    | some s ↦
        if not (reason_requires_restart reason s)
        then (remove_spec X now name c >>= λ (c', gone). returns (c', continue))
        else (let (s', granted) = acquire_restart_permit now s in
            if granted
            then returns (set_child X c name (start s').0, continue)
            else shutdown X (set_child X c name s'))
  ]

  unfoldable pub handle_cascade_current_exit :
      ℕ → ℕ → ExitReason → RestForOne X → Run (RestForOne X × Flow)
  unfolding advance_cascade retry_current
  handle_cascade_current_exit now name reason c = elim c.cascade [
    | restarting n pending ↦ retry_current now name reason c
    | _ ↦ advance_cascade X 2 now c
  ]

  -- The `match` on the cascade that is taken out.
  unfoldable pub cascade_from : ℕ → ℕ → Cascade → RestForOne X → Run (RestForOne X × Flow)
  unfolding start_cascade merge_into_stopping
  cascade_from now name idle c = start_cascade now name c
  cascade_from now name (exiting waited pending to_restart to_drop) c =
      merge_into_stopping name waited pending to_restart to_drop c
  cascade_from now name (restarting _ _) c = start_cascade now name c
  cascade_from now name (shutting_down _ _) c = panics

  unfoldable pub restart : ℕ → ℕ → Supervisee → RestForOne X → Run (RestForOne X × Flow)
  unfolding shutdown cascade_from
  restart now name s c =
      let (restarter, granted) = acquire_permit now c.inner.restarter in
      let c' = record c { inner = record (c.inner) { restarter = restarter } } in
      elim granted [
        | false ↦ shutdown X c'
        | true ↦
            let (s', allowed) = acquire_restart_permit now s in
            let c'' = set_child X c' name s' in
            if allowed
            then cascade_from now name c.cascade (record c'' { cascade = idle })
            else shutdown X c''
      ]

  unfoldable pub handle_exit : ℕ → ℕ → ExitReason → RestForOne X → Run (RestForOne X × Flow)
  unfolding handle_cascade_current_exit restart remove_spec
  handle_exit now name reason c =
      if is_current c.cascade name
      then handle_cascade_current_exit now name reason c
      else if pending_contains c.cascade name
      then returns (c, continue)
      else (get_mut X c.inner.supervisees name >>= λ found. elim found [
        | none ↦ returns (c, continue)
        | some s ↦
            if not (reason_requires_restart reason s)
            then (remove_spec X now name c >>= λ (c', gone). returns (c', continue))
            else restart now name s c
      ])

  unfoldable pub after_initialized : ℕ → ℕ → RestForOne X → Run (RestForOne X × Flow)
  unfolding advance_cascade
  after_initialized now name c =
      if is_current c.cascade name then advance_cascade X 2 now c else returns (c, continue)

  abbrev pub strategy : Strategy X
  strategy = record {
    State = RestForOne X;
    inner = λ c. c.inner;
    initializing = λ c. c.initializing;
    with_parts = λ c inner initializing. record c { inner = inner; initializing = initializing };
    handle_exit = handle_exit;
    shutdown = shutdown X;
    remove_spec = remove_spec X;
    after_initialized = after_initialized;
  }
