-- ===== src/Distr/Messaging/Monitors/Early.antt =====
-- monitors.rs and ops.rs: a `DemonitorOp` that runs before the `MonitorOp` that it calls off.
use zestors.Base.{
  ℕ, ◌≡◌, refl, sym, ap, subst, ◌∙◌, inl, inr, Bool, true, false, not, ◌&&◌, ◌||◌, Option, none,
  some, List, [], ◌∷◌, ◌++◌, ◌==◌, elem, All, Bool-cases, arith,
}
use zestors.External.DashMap.{DashMap}
use zestors.External.HashModels.{pairs}
use zestors.Distr.Messaging.Monitors.{
  Key, Stage, asked, waiting, answered, ended, Monitor, Monitors, begin, end, cancel_removed,
  cancel, drop_node, Node, new, first_state, asks, begins, reaches, gives_up, ends, calls_off,
  loses, Reach, start, later, keys_of,
}
use zestors.Distr.Messaging.Monitors.Kept.{WellFormed, Reach-WellFormed}
use zestors.Distr.Messaging.Monitors.Waiting.{Fresh, Distinct, Reach-Kept, Other, others}

module _ (D : DashMap pairs ℕ) where
  abbrev begun_at : Stage → Bool
  begun_at asked = false
  begun_at (waiting token) = true
  begun_at answered = true
  begun_at ended = true

  -- The task of a monitor with this key has run `begin`.
  abbrev begun : List Monitor → Key → Bool
  begun [] k = false
  begun (t ∷ ts) k = (pairs.same t.key k && begun_at t.stage) || begun ts k

  begun-middle :
      (xs ys : List Monitor) (t : Monitor) (k : Key)
      → begun (xs ++ t ∷ ys) k ≡ (begun (xs ++ ys) k || (pairs.same t.key k && begun_at t.stage))
  begun-middle [] ys t k = ground arith
  begun-middle (x ∷ xs) ys t k = ground (arith, begun-middle xs ys t k)

  -- Only monitors that have begun are in the table.
  abbrev Listed : Node D → Type 0
  Listed s = (k : Key) → begun s.tasks k ≡ false → D.get s.monitors.live k ≡ none

  neither : (a b : Bool) → (a || b) ≡ false → (a ≡ false) × (b ≡ false)
  neither a b h = ground arith

  moves_on :
      (xs ys : List Monitor) (ts : List Monitor) (key k : Key) (a b : Stage)
      → ts ≡ xs ++ record { key = key; stage = a } ∷ ys
      → begun_at b ≡ true
      → begun (xs ++ record { key = key; stage = b } ∷ ys) k ≡ false
      → (begun ts k ≡ false) × (pairs.same key k ≡ false)
  moves_on xs ys ts key k a b e h n =
      let after = begun-middle xs ys (record { key = key; stage = b }) k in
      let before = begun-middle xs ys (record { key = key; stage = a }) k in
      let (rest, here) =
        neither (begun (xs ++ ys) k) (pairs.same key k && begun_at b) (sym after ∙ n) in
      let other : pairs.same key k ≡ false = ground (arith, here) in
      (ap (λ l. begun l k) e ∙ before ∙ rw (rest, other) refl, other)

  drop_node-none :
      (m : Monitors D) (node : ℕ) (k : Key)
      → D.get m.live k ≡ none
      → D.get (drop_node D node m).live k ≡ none
  unfolding drop_node
  drop_node-none m node k e = D.get-retain (λ j t. not (j.0 == node)) m.live k ∙ rw e refl

  cancel_removed-none :
      (m : Monitors D) (key : Key) (o : Option ℕ) (k : Key)
      → D.get m.live k ≡ none
      → D.get (cancel_removed D key o m).live k ≡ none
  cancel_removed-none m key none k e = e
  cancel_removed-none m key (some t) k e = ground (arith, D.get-remove m.live key k)

  Reach-Listed : {s : Node D} → Reach D s → Listed s
  unfolding first_state new begin end cancel
  Reach-Listed start k n = D.get-new k
  Reach-Listed (later r (asks key)) k n = Reach-Listed r k (ground arith)
  Reach-Listed (later {s} r (begins xs ys key e)) k n =
      let (before, other) =
        moves_on xs ys s.tasks key k asked (waiting s.monitors.next_token) e refl n in
      D.get-insert s.monitors.live key s.monitors.next_token k ∙ rw other (Reach-Listed r k before)
  Reach-Listed (later {s} r (reaches xs ys key token e)) k n =
      Reach-Listed r k (moves_on xs ys s.tasks key k (waiting token) answered e refl n).0
  Reach-Listed (later {s} r (gives_up xs ys key token e c)) k n =
      Reach-Listed r k (moves_on xs ys s.tasks key k (waiting token) answered e refl n).0
  Reach-Listed (later {s} r (ends xs ys key e)) k n =
      let (before, other) = moves_on xs ys s.tasks key k answered ended e refl n in
      D.get-remove s.monitors.live key k ∙ rw other (Reach-Listed r k before)
  Reach-Listed (later {s} r (calls_off key)) k n =
      cancel_removed-none s.monitors key (D.get s.monitors.live key) k (Reach-Listed r k n)
  Reach-Listed (later {s} r (loses node)) k n =
      drop_node-none s.monitors node k (Reach-Listed r k n)

  not_begun : (key : Key) (ts : List Monitor) → All (Other D key) ts → begun ts key ≡ false
  not_begun key [] h = refl
  not_begun key (t ∷ ts) h = ground (arith, not_begun key ts h.1)

  begun-append : (xs ys : List Monitor) (k : Key) → begun (xs ++ ys) k ≡ (begun xs k || begun ys k)
  begun-append [] ys k = refl
  begun-append (x ∷ xs) ys k = ground (arith, begun-append xs ys k)

  -- `begin` in a state as it is after a `DemonitorOp` for a monitor that was not there.
  begins_listed :
      (m m' : Monitors D) (key : Key)
      → WellFormed D m
      → m' ≡ m
      → (elem (begin D key m').1 (begin D key m').0.cancelled ≡ false)
        × (D.get (begin D key m').0.live key ≡ some (begin D key m').1)
  unfolding begin
  begins_listed m m' key w e = rw e (
    elim (Bool-cases (elem m.next_token m.cancelled)) [
      | inl before ↦ absurd (ground (arith, w.was_made m.next_token before))
      | inr never ↦ never
    ],
    D.get-insert m.live key m.next_token key ∙ rw (pairs.same_refl key) refl,
  )

  asked_only :
      {s : Node D} (r : Reach D s) (xs ys : List Monitor) (key : Key)
      → Fresh D r
      → s.tasks ≡ xs ++ record { key = key; stage = asked } ∷ ys
      → begun s.tasks key ≡ false
  asked_only {s} r xs ys key f e =
      let d = subst (λ l. Distinct D (keys_of D l)) e (Reach-Kept D r f).distinct in
      let (before, after) = others D xs ys (record { key = key; stage = asked }) d in
      ap (λ l. begun l key) e
      ∙ begun-middle xs ys (record { key = key; stage = asked }) key
      ∙ rw (begun-append xs ys key, not_begun key xs before, not_begun key ys after) (ground arith)

  cancel-none : (m : Monitors D) (key : Key) → D.get m.live key ≡ none → cancel D key m ≡ m
  unfolding cancel
  cancel-none m key e = rw e refl

  -- When a monitor has been asked for, but its `MonitorOp` has not begun, then a `DemonitorOp` for it finds
  -- nothing to cancel and changes nothing; the `MonitorOp` that begins after it waits all the same, in the table
  -- and with a token that is not cancelled. No node uses an id twice.
  pub called_off_early :
      {s : Node D} (r : Reach D s) (xs ys : List Monitor) (key : Key)
      → Fresh D r
      → s.tasks ≡ xs ++ record { key = key; stage = asked } ∷ ys
      → let m = cancel D key s.monitors in
        (m ≡ s.monitors)
        × (elem (begin D key m).1 (begin D key m).0.cancelled ≡ false)
        × (D.get (begin D key m).0.live key ≡ some (begin D key m).1)
  called_off_early {s} r xs ys key f e =
      let none' = Reach-Listed r key (asked_only r xs ys key f e) in
      let same = cancel-none s.monitors key none' in
      let b = begins_listed s.monitors (cancel D key s.monitors) key (Reach-WellFormed D r) same in
      (same, b.0, b.1)
