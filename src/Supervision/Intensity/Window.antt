-- ===== src/Supervision/Intensity/Window.antt =====
-- The limiter against a count over everything it ever granted.
use zestors.Base.{
  ℕ, ◌+◌, ◌-◌, ◌≤◌, ◌≡◌, refl, ap, ◌∙◌, true, false, List, [], ◌∷◌, ◌++◌, length, length-append,
  ltb, leb, if◌then◌else◌, All, Bool-cases, inl, inr, arith,
}
use zestors.Supervision.Intensity.{
  RestartIntensity, RestartLimiter, is_infinite, drop_old, allow_restart, acquire_permit,
  new_limiter,
}

-- How many of the restarts `log` lie within the window that ends at `now`.
abbrev pub recent : ℕ → ℕ → List ℕ → ℕ
recent within now [] = 0
recent within now (t ∷ log) = (if leb (now - t) within then 1 else 0) + recent within now log

-- Times that do not go back, from `last` on.
abbrev pub Monotone : ℕ → List ℕ → Type 0
Monotone last [] = Unit
Monotone last (t ∷ ts) = (last ≤ t) × Monotone t ts

-- What the limiter grants at the times `ts`, newest first, after the restarts `log`.
pub grants : List ℕ → RestartLimiter → List ℕ → List ℕ
grants [] l log = log
grants (t ∷ ts) l log =
    let (l', granted) = acquire_permit t l in grants ts l' (if granted then t ∷ log else log)

-- The same by counting in the whole log: a restart is granted if the window holds fewer than the limit.
pub counted_grants : List ℕ → RestartIntensity → List ℕ → List ℕ
counted_grants [] i log = log
counted_grants (t ∷ ts) i log =
    counted_grants ts i (if ltb (recent i.within t log) i.max_restarts then t ∷ log else log)

drop_old-drop_old :
    (w now later : ℕ) (h : List ℕ)
    → now ≤ later
    → drop_old w later (drop_old w now h) ≡ drop_old w later h
unfolding drop_old
drop_old-drop_old w now later [] le = refl
drop_old-drop_old w now later (t ∷ h) le = ground (arith, drop_old-drop_old w now later h le)

drop_old-All :
    (w now last : ℕ) (h : List ℕ) → All (λ t. t ≤ last) h → All (λ t. t ≤ last) (drop_old w now h)
unfolding drop_old
drop_old-All w now last [] a = tt
drop_old-All w now last (t ∷ h) a = ground (arith, drop_old-All w now last h a.1)

-- A time joins the history at the end, and stays while it is in the window.
length-drop_old-append :
    (w now later : ℕ) (h : List ℕ)
    → now ≤ later
    → All (λ t. t ≤ now) h
    → length (drop_old w later (h ++ now ∷ []))
      ≡ (if leb (later - now) w then 1 else 0) + length (drop_old w later h)
unfolding drop_old
length-drop_old-append w now later [] le a = ground arith
length-drop_old-append w now later (t ∷ h) le a =
    ground (arith, length-drop_old-append w now later h le a.1, length-append h (now ∷ []))

All-weaken : (m n : ℕ) (h : List ℕ) → m ≤ n → All (λ t. t ≤ m) h → All (λ t. t ≤ n) h
All-weaken m n [] le a = tt
All-weaken m n (t ∷ h) le a = (omega arith, All-weaken m n h le a.1)

All-snoc : (n : ℕ) (h : List ℕ) → All (λ t. t ≤ n) h → All (λ t. t ≤ n) (h ++ n ∷ [])
All-snoc n [] a = (omega arith, tt)
All-snoc n (t ∷ h) a = (a.0, All-snoc n h a.1)

-- At every later time the history holds as many restarts in the window as the log.
record Keeps (i : RestartIntensity) (last : ℕ) (h log : List ℕ) : Type 0 where
  past : All (λ t. t ≤ last) h
  counts : (now : ℕ) → last ≤ now → length (drop_old i.within now h) ≡ recent i.within now log

module _ (i : RestartIntensity) (last now : ℕ) (h log : List ℕ) (le : last ≤ now)
    (k : Keeps i last h log) where
  kept : List ℕ
  kept = drop_old i.within now h

  kept-All : All (λ t. t ≤ now) kept
  unfolding kept
  kept-All = drop_old-All i.within now now h (All-weaken last now h le k.past)

  refused-Keeps : Keeps i now kept log
  unfolding kept
  refused-Keeps = record {
    past = kept-All;
    counts = λ later le'.
        ap length (drop_old-drop_old i.within now later h le') ∙ k.counts later (omega arith);
  }

  granted-Keeps : Keeps i now (kept ++ now ∷ []) (now ∷ log)
  unfolding kept
  granted-Keeps = record {
    past = All-snoc now kept kept-All;
    counts = λ later le'. omega (
      arith,
      length-drop_old-append i.within now later kept le' kept-All,
      refused-Keeps.counts later le',
    );
  }

acquire-Keeps :
    (i : RestartIntensity) (last now : ℕ) (h log : List ℕ)
    → is_infinite i ≡ false
    → last ≤ now
    → Keeps i last h log
    → let (h', granted) = allow_restart i now h in
      (granted ≡ ltb (recent i.within now log) i.max_restarts)
      × Keeps i now h' (if granted then now ∷ log else log)
unfolding allow_restart kept
acquire-Keeps i last now h log fin le k =
    elim (Bool-cases (leb i.max_restarts (length (drop_old i.within now h)))) [
      | inl full ↦
          let e : allow_restart i now h ≡ (drop_old i.within now h, false) =
            rw (allow_restart, fin, full) in
          rw e (ground (arith, k.counts now le), refused-Keeps i last now h log le k)
      | inr room ↦
          let e : allow_restart i now h ≡ (drop_old i.within now h ++ now ∷ [], true) =
            rw (allow_restart, fin, room) in
          rw e (ground (arith, k.counts now le), granted-Keeps i last now h log le k)
    ]

grants-counted :
    (ts : List ℕ) (i : RestartIntensity) (last : ℕ) (h log : List ℕ)
    → is_infinite i ≡ false
    → Monotone last ts
    → Keeps i last h log
    → grants ts (record { intensity = i; restarts = h }) log ≡ counted_grants ts i log
unfolding grants counted_grants acquire_permit
grants-counted [] i last h log fin m k = refl
grants-counted (t ∷ ts) i last h log fin m k =
    let (same, k') = acquire-Keeps i last t h log fin m.0 k in
    rw (← same) (grants-counted ts i t _ _ fin m.1 k')

-- For attempts at times that do not go back, a limiter that is not `infinite` grants exactly those at
-- which fewer than `max_restarts` of the restarts ever granted lie within the window: forgetting the
-- aged-out entries changes no decision.
pub grants-counted_grants :
    (i : RestartIntensity) (ts : List ℕ)
    → is_infinite i ≡ false
    → Monotone 0 ts
    → grants ts (new_limiter i) [] ≡ counted_grants ts i []
unfolding drop_old
grants-counted_grants i ts fin m =
    grants-counted ts i 0 [] [] fin m (record { past = tt; counts = λ now le. refl })

-- Any window that ends at a restart holds at most `max_restarts` restarts, that one included.
abbrev pub Sparse : RestartIntensity → List ℕ → Type 0
Sparse i [] = Unit
Sparse i (t ∷ log) = (recent i.within t (t ∷ log) ≤ i.max_restarts) × Sparse i log

counted_grants-Sparse :
    (ts : List ℕ) (i : RestartIntensity) (log : List ℕ)
    → Sparse i log
    → Sparse i (counted_grants ts i log)
unfolding counted_grants
counted_grants-Sparse [] i log s = s
counted_grants-Sparse (t ∷ ts) i log s =
    elim (Bool-cases (ltb (recent i.within t log) i.max_restarts)) [
      | inl room ↦ rw room (counted_grants-Sparse ts i (t ∷ log) (ground arith, s))
      | inr full ↦ rw full (counted_grants-Sparse ts i log s)
    ]

-- A limiter that is not `infinite`, asked at times that do not go back, never has granted more than
-- `max_restarts` restarts in the window that ends at any of them.
pub grants-Sparse :
    (i : RestartIntensity) (ts : List ℕ)
    → is_infinite i ≡ false
    → Monotone 0 ts
    → Sparse i (grants ts (new_limiter i) [])
grants-Sparse i ts fin m = rw (grants-counted_grants i ts fin m) (counted_grants-Sparse ts i [] tt)
