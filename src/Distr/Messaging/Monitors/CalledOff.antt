-- ===== src/Distr/Messaging/Monitors/CalledOff.antt =====
-- monitors.rs: which monitors a message or the loss of a node calls off.
use zestors.Base.{
  ℕ, ◌≡◌, refl, sym, ap, ◌∙◌, inl, inr, Bool, true, false, ◌||◌, Option, none, some, List, [], ◌∷◌,
  ◌==◌, elem, elem-append, All, Bool-cases, arith,
}
use zestors.External.DashMap.{DashMap, among}
use zestors.External.HashModels.{pairs}
use zestors.Distr.Messaging.Monitors.{
  Key, Stage, asked, waiting, answered, ended, Monitor, Monitors, cancel_removed, cancel, tokens_of,
  drop_node, Node, Reach,
}
use zestors.Distr.Messaging.Monitors.Kept.{
  WellFormed, tokens_of-in, drop_node-cancelled, Reach-WellFormed,
}
use zestors.Distr.Messaging.Monitors.Waiting.{Waits, HeldAt, Held, Fresh, Reach-Kept}

module _ (D : DashMap pairs ℕ) where
  -- Of the monitors that wait, an operation cancels those that the test picks.
  abbrev pub CancelsAt : (Key → Bool) → Monitors D → Monitors D → Key → Stage → Type 0
  CancelsAt test m m' key asked = Unit
  CancelsAt test m m' key (waiting token) =
      elem token m'.cancelled ≡ (test key || elem token m.cancelled)
  CancelsAt test m m' key answered = Unit
  CancelsAt test m m' key ended = Unit

  abbrev pub Cancels : (Key → Bool) → Monitors D → Monitors D → List Monitor → Type 0
  Cancels test m m' ts = All (λ t. CancelsAt test m m' t.key t.stage) ts

  CancelsAt-map :
      (test : Key → Bool) (m m' : Monitors D) (key : Key)
      → ((token : ℕ)
          → Waits D m key token
          → elem token m'.cancelled ≡ (test key || elem token m.cancelled))
      → (st : Stage) → HeldAt D m key st
      → CancelsAt test m m' key st
  CancelsAt-map test m m' key f asked h = tt
  CancelsAt-map test m m' key f (waiting token) h = f token h
  CancelsAt-map test m m' key f answered h = tt
  CancelsAt-map test m m' key f ended h = tt

  Cancels-map :
      (test : Key → Bool) (m m' : Monitors D)
      → ((key : Key) (token : ℕ)
          → Waits D m key token
          → elem token m'.cancelled ≡ (test key || elem token m.cancelled))
      → (ts : List Monitor) → All (Held D m) ts
      → Cancels test m m' ts
  Cancels-map test m m' f [] h = tt
  Cancels-map test m m' f (t ∷ ts) h =
      (CancelsAt-map test m m' t.key (f t.key) t.stage h.0, Cancels-map test m m' f ts h.1)

  module _ (m : Monitors D) (w : WellFormed D m) where
    cancel_removed-cancelled :
        (key : Key) (o : Option ℕ)
        → D.get m.live key ≡ o
        → (k : Key) (token : ℕ) → Waits D m k token
        → elem token (cancel_removed D key o m).cancelled
          ≡ (pairs.same key k || elem token m.cancelled)
    cancel_removed-cancelled key none e k token h = elim (Bool-cases (pairs.same key k)) [
      | inl here ↦
          let at : D.get m.live k ≡ none = ap (D.get m.live) (sym (pairs.same→≡ key k here)) ∙ e in
          rw here (elim (Bool-cases (elem token m.cancelled)) [
            | inl before ↦ before
            | inr live ↦ absurd (ground (arith, h.1 live))
          ])
      | inr other ↦ rw other refl
    ]
    cancel_removed-cancelled key (some t) e k token h = elim (Bool-cases (elem token m.cancelled)) [
      | inl before ↦ rw before (ground arith)
      | inr live ↦ rw live (elim (Bool-cases (pairs.same key k)) [
        | inl here ↦
            let at : D.get m.live k ≡ some t =
              ap (D.get m.live) (sym (pairs.same→≡ key k here)) ∙ e in
            rw here (ground (arith, h.1 live))
        | inr other ↦ rw other (ground (arith, h.1 live, w.own key k token))
      ])
    ]

    still :
        (node : ℕ) (k : Key) (token : ℕ)
        → (k.0 == node) ≡ false
        → elem token m.cancelled ≡ false
        → D.get m.live k ≡ some token
        → elem token (drop_node D node m).cancelled ≡ false
    still node k token n live at = elim (Bool-cases (elem token (drop_node D node m).cancelled)) [
      | inl gone ↦ elim (drop_node-cancelled D m w node token gone) [
        | inl before ↦ absurd (ground arith)
        | inr (j, n', h) ↦ absurd (ground (arith, w.own k j token at h))
      ]
      | inr no' ↦ no'
    ]

    drop_node-picks :
        (node : ℕ) (k : Key) (token : ℕ)
        → Waits D m k token
        → elem token (drop_node D node m).cancelled ≡ ((k.0 == node) || elem token m.cancelled)
    unfolding drop_node
    drop_node-picks node k token h = elim (Bool-cases (elem token m.cancelled)) [
      | inl before ↦
          elem-append token (tokens_of D node m.live (D.keys m.live)) m.cancelled
          ∙ rw before (ground arith)
      | inr live ↦ elim (Bool-cases (k.0 == node)) [
        | inl lost ↦
            let at = h.1 live in
            let listed : among pairs k (D.keys m.live) ≡ true =
              D.among-keys m.live k ∙ rw at refl in
            rw lost (
              elem-append token (tokens_of D node m.live (D.keys m.live)) m.cancelled
              ∙ rw (tokens_of-in D node m.live (D.keys m.live) k token listed lost at) refl)
        | inr other ↦ rw (other, live) (still node k token other live (h.1 live))
      ]
    ]

  -- Calling off a monitor cancels the one that waits under that id for that node, and no other. No node uses an
  -- id twice.
  pub cancel-Cancels :
      {s : Node D} (r : Reach D s)
      → Fresh D r
      → (key : Key) → Cancels (pairs.same key) s.monitors (cancel D key s.monitors) s.tasks
  unfolding cancel
  cancel-Cancels {s} r f key =
      Cancels-map (pairs.same key) s.monitors (cancel D key s.monitors)
        (cancel_removed-cancelled s.monitors (Reach-WellFormed D r) key (D.get s.monitors.live key)
          refl)
        s.tasks (Reach-Kept D r f).held

  -- The loss of a node cancels all monitors that wait for it, and no other. No node uses an id twice.
  pub drop_node-Cancels :
      {s : Node D} (r : Reach D s)
      → Fresh D r
      → (node : ℕ) → Cancels (λ k. k.0 == node) s.monitors (drop_node D node s.monitors) s.tasks
  drop_node-Cancels {s} r f node =
      Cancels-map (λ k. k.0 == node) s.monitors (drop_node D node s.monitors)
        (drop_node-picks s.monitors (Reach-WellFormed D r) node) s.tasks (Reach-Kept D r f).held
