-- ===== src/Distr/Messaging/ActorQueue/Drains.antt =====
-- receive.rs: what the tasks do while the router is given nothing.
use zestors.Base.{
  ◌≡◌, refl, sym, ap, ◌∙◌, subst, inl, inr, true, Option, none, some, List, [], ◌∷◌, ◌++◌,
  append_assoc, append-nil, All, All-append, Bool-cases, length, arith,
}
use zestors.Distr.Messaging.ActorQueue.{
  Queued, admit, Work, ActorQueue, Actor, start, send, route_to, route, take, Step, routes, takes,
  times_out, closes, sweeps, finishes, Reach, start_of, later,
}
use zestors.Distr.Messaging.ActorQueue.Order.{waiting}

-- The router is given nothing.
abbrev OfTask : {s t : Actor} → Step s t → Type 0
OfTask (routes w) = ⊥
OfTask (takes a w rest e q h) = Unit
OfTask (times_out a e q h) = Unit
OfTask (closes a e q h) = Unit
OfTask (sweeps a e h) = Unit
OfTask (finishes xs ys a w rest e q) = Unit

-- What the tasks alone make of a state.
pub data After {s : Actor} (r : Reach s) : (t : Actor) → Reach t → Type 0 where
  now : After r s r
  next :
      {t u : Actor} {r' : Reach t}
      → After r t r'
      → (m : Step t u) → OfTask m
      → After r u (later r' m)

-- A queue is closed only after its task's wait.
abbrev InTurn : Option ActorQueue → Type 0
InTurn none = Unit
InTurn (some a) = a.closed ≡ true → a.timed_out ≡ true

send-InTurn :
    (w : Work) (q : Queued) (a : ActorQueue) (s : Actor)
    → (a.closed ≡ true → a.timed_out ≡ true)
    → InTurn (send w q a s).0.route
unfolding start
send-InTurn w q a s h = elim (Bool-cases a.closed) [
  | inl shut ↦ rw shut (λ k. ground arith)
  | inr open' ↦ rw open' (λ k. ground arith)
]

route_to-InTurn :
    (w : Work) (o : Option ActorQueue) (s : Actor)
    → s.route ≡ o
    → InTurn o
    → InTurn (route_to w o s).0.route
unfolding start
route_to-InTurn w none s e h = λ k. ground arith
route_to-InTurn w (some a) s e h = elim (Bool-cases (admit (length w.payload) a.queued).1) [
  | inl yes' ↦ rw yes' (send-InTurn w _ a s h)
  | inr full ↦ rw full (rw e h)
]

Reach-InTurn : {s : Actor} → Reach s → InTurn s.route
unfolding route
Reach-InTurn start_of = tt
Reach-InTurn (later {s} r (routes w)) = route_to-InTurn w s.route s refl (Reach-InTurn r)
Reach-InTurn (later {s} r (takes a w rest e q h)) = subst InTurn e (Reach-InTurn r)
Reach-InTurn (later {s} r (times_out a e q h)) = λ k. refl
Reach-InTurn (later {s} r (closes a e q h)) = λ k. q
Reach-InTurn (later {s} r (sweeps a e h)) = tt
Reach-InTurn (later {s} r (finishes xs ys a w rest e q)) = Reach-InTurn r

-- Nothing waits.
abbrev Empty : ActorQueue → Type 0
Empty a = a.queue ≡ []

record From {s : Actor} (r : Reach s) (Goal : Actor → Type 0) : Type 0 where
  pub state : Actor
  pub reach : Reach state
  pub after : After r state reach
  pub goal : Goal state

finish_one :
    {s0 : Actor} {r0 : Reach s0} (ws : List Work) (xs ys : List ActorQueue) (a : ActorQueue)
    {s : Actor} (r : Reach s)
    → After r0 s r
    → a.queue ≡ ws
    → s.older ≡ xs ++ a ∷ ys
    → From r0 (λ t. (t.route ≡ s.route) × ((b : ActorQueue) × Empty b × (t.older ≡ xs ++ b ∷ ys)))
finish_one [] xs ys a {s} r f q e = record {
  state = s;
  reach = r;
  after = f;
  goal = (refl, (a, q, e));
}
finish_one (w ∷ ws) xs ys a {s} r f q e =
    let g =
      finish_one ws xs ys (take w ws a) (later r (finishes xs ys a w ws e q)) (next f _ tt) refl
        refl in
    record { state = g.state; reach = g.reach; after = g.after; goal = g.goal }

finish_queues :
    {s0 : Actor} {r0 : Reach s0} (xs ys : List ActorQueue) {s : Actor} (r : Reach s)
    → After r0 s r
    → All Empty xs
    → s.older ≡ xs ++ ys
    → waiting s.route ≡ []
    → From r0 (λ t. (waiting t.route ≡ []) × All Empty t.older)
finish_queues xs [] {s} r f h e n = record {
  state = s;
  reach = r;
  after = f;
  goal = (n, subst (All Empty) (sym (e ∙ append-nil xs)) h);
}
finish_queues xs (a ∷ ys) {s} r f h e n =
    let g = finish_one a.queue xs ys a r f refl e in
    let same = g.goal.0 in
    let (b, q, k) = g.goal.1 in
    finish_queues (xs ++ b ∷ []) ys g.reach g.after (All-append Empty xs (b ∷ []) h (q, tt))
      (k ∙ sym (append_assoc xs (b ∷ []) ys)) (ap waiting same ∙ n)

take_rest :
    {s0 : Actor} {r0 : Reach s0} (ws : List Work) (a : ActorQueue) {s : Actor} (r : Reach s)
    → After r0 s r
    → s.route ≡ some a
    → a.queue ≡ ws
    → a.timed_out ≡ a.closed
    → From r0 (λ t. waiting t.route ≡ [])
take_rest [] a {s} r f e q h = record { state = s; reach = r; after = f; goal = ap waiting e ∙ q }
take_rest (w ∷ ws) a {s} r f e q h =
    take_rest ws (take w ws a) (later r (takes a w ws e q h)) (next f _ tt) refl refl h

take_current :
    {s : Actor} (r : Reach s) (o : Option ActorQueue)
    → s.route ≡ o
    → From r (λ t. waiting t.route ≡ [])
take_current {s} r none e = record { state = s; reach = r; after = now; goal = ap waiting e }
take_current {s} r (some a) e = elim (Bool-cases a.timed_out) [
  | inl late ↦ elim (Bool-cases a.closed) [
    | inl shut ↦ take_rest a.queue a r now e refl (late ∙ sym shut)
    | inr open' ↦
        take_rest a.queue (record a { closed = true }) (later r (closes a e late open'))
          (next now _ tt) refl refl late
  ]
  | inr waits ↦ elim (Bool-cases a.closed) [
    | inl shut ↦ absurd (ground (arith, subst InTurn e (Reach-InTurn r) shut))
    | inr open' ↦ take_rest a.queue a r now e refl (waits ∙ sym open')
  ]
]

-- Whatever has happened, the tasks alone can reach a state in which nothing waits.
pub Reach-drains :
    {s : Actor} (r : Reach s)
    → (t : Actor) × (r' : Reach t) × After r t r'
      × (waiting t.route ≡ [])
      × All (λ a. a.queue ≡ []) t.older
Reach-drains {s} r =
    let c = take_current r s.route refl in
    let g = finish_queues [] c.state.older c.reach c.after tt refl c.goal in
    (g.state, g.reach, g.after, g.goal.0, g.goal.1)
