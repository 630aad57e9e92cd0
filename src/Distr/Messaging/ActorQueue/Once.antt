-- ===== src/Distr/Messaging/ActorQueue/Once.antt =====
-- receive.rs: how often a message is taken.
use zestors.Base.{
  ℕ, ◌+◌, ◌≡◌, refl, sym, ap, ◌∙◌, inl, inr, Bool, true, false, Option, none, some, List, [], ◌∷◌,
  ◌++◌, if◌then◌else◌, Bool-cases, length, arith,
}
use zestors.Distr.Messaging.ActorQueue.{
  Queued, admit, Work, ActorQueue, Actor, start, send, route_to, route, take, routes, takes,
  times_out, closes, sweeps, finishes, Reach, start_of, later,
}
use zestors.Distr.Messaging.ActorQueue.Order.{room, accepted, waiting}

module _ (p : Work → Bool) where
  abbrev pub count : List Work → ℕ
  count [] = 0
  count (w ∷ ws) = let rest = count ws in if p w then 1 + rest else rest

  count-append : (xs ys : List Work) → count (xs ++ ys) ≡ count xs + count ys
  count-append [] ys = omega arith
  count-append (w ∷ xs) ys = ground (arith, count-append xs ys)

  abbrev pub in_queues : List ActorQueue → ℕ
  in_queues [] = 0
  in_queues (a ∷ as') = count a.queue + in_queues as'

  -- What was taken, and what waits.
  abbrev pub in_actor : Actor → ℕ
  in_actor s = count s.processed + count (waiting s.route) + in_queues s.older

  takes_one :
      (xs ys : List ActorQueue) (a b : ActorQueue) (w : Work) (rest : List Work)
      → a.queue ≡ w ∷ rest
      → b.queue ≡ rest
      → in_queues (xs ++ a ∷ ys) ≡ in_queues (xs ++ b ∷ ys) + count (w ∷ [])
  takes_one [] ys a b w rest e f = rw (e, f) (ground arith)
  takes_one (x ∷ xs) ys a b w rest e f = omega (arith, takes_one xs ys a b w rest e f)

  send-in_actor :
      (w : Work) (q : Queued) (a : ActorQueue) (s : Actor)
      → s.route ≡ some a
      → in_actor (send w q a s).0 ≡ in_actor s + count (w ∷ [])
  unfolding start
  send-in_actor w q a s e = elim (Bool-cases a.closed) [
    | inl shut ↦ rw (shut, e) (omega arith)
    | inr open' ↦ rw (open', e) (omega (arith, count-append a.queue (w ∷ [])))
  ]

  route_to-in_actor :
      (w : Work) (o : Option ActorQueue) (s : Actor)
      → s.route ≡ o
      → in_actor (route_to w o s).0 ≡ (if room w o then in_actor s + count (w ∷ []) else in_actor s)
  unfolding start
  route_to-in_actor w none s e = rw e (omega arith)
  route_to-in_actor w (some a) s e = elim (Bool-cases (admit (length w.payload) a.queued).1) [
    | inl yes' ↦ rw yes' (send-in_actor w _ a s e)
    | inr full ↦ rw full refl
  ]

  accepted-count :
      (b : Bool) (l : List Work) (w : Work)
      → count (if b then l ++ w ∷ [] else l) ≡ (if b then count l + count (w ∷ []) else count l)
  accepted-count true l w = count-append l (w ∷ [])
  accepted-count false l w = refl

  -- Whatever the router and the tasks do, in any order, each message that was let in was taken once or waits in
  -- one queue: so it is with the numbers of messages that pass a test, for every test.
  pub Reach-in_actor : {s : Actor} (r : Reach s) → in_actor s ≡ count (accepted r)
  unfolding route
  Reach-in_actor start_of = refl
  Reach-in_actor (later {s} r (routes w)) =
      route_to-in_actor w s.route s refl
      ∙ rw (Reach-in_actor r) refl
      ∙ sym (accepted-count (room w s.route) (accepted r) w)
  Reach-in_actor (later {s} r (takes a w rest e q h)) =
      let now : count (waiting s.route) ≡ count (w ∷ []) + count rest =
        ap (λ o. count (waiting o)) e ∙ ap count q ∙ count-append (w ∷ []) rest in
      omega (arith, now, Reach-in_actor r, count-append s.processed (w ∷ []))
  Reach-in_actor (later {s} r (times_out a e q h)) =
      ap (λ o. count s.processed + count (waiting o) + in_queues s.older) (sym e) ∙ Reach-in_actor r
  Reach-in_actor (later {s} r (closes a e q h)) =
      ap (λ o. count s.processed + count (waiting o) + in_queues s.older) (sym e) ∙ Reach-in_actor r
  Reach-in_actor (later {s} r (sweeps a e h)) =
      let now : count (waiting s.route) ≡ count a.queue = ap (λ o. count (waiting o)) e in
      omega (arith, now, Reach-in_actor r)
  Reach-in_actor (later {s} r (finishes xs ys a w rest e q)) =
      let now : in_queues s.older ≡ in_queues (xs ++ a ∷ ys) = ap in_queues e in
      let one = takes_one xs ys a (take w rest a) w rest q refl in
      omega (arith, now, one, Reach-in_actor r, count-append s.processed (w ∷ []))
