-- ===== src/Distr/Messaging/ActorQueue/Order.antt =====
-- receive.rs: the order in which the messages of an actor are taken.
use zestors.Base.{
  ◌≡◌, ◌∙◌, inl, inr, refl, sym, ap, subst, Bool, true, false, Option, none, some, List, [], ◌∷◌,
  ◌++◌, length, append_assoc, arith, All, Bool-cases, if◌then◌else◌,
}
use zestors.Distr.Messaging.ActorQueue.{
  Queued, admit, Work, ActorQueue, Actor, start, send, route_to, route, take, routes, takes,
  times_out, closes, sweeps, finishes, Reach, start_of, later,
}

-- There is room for a message.
abbrev pub room : Work → Option ActorQueue → Bool
room w none = true
room w (some a) = (admit (length w.payload) a.queued).1

-- What the router was given, and what it did not refuse, in order.
abbrev pub routed : {s : Actor} → Reach s → List Work
routed start_of = []
routed (later r (routes w)) = routed r ++ w ∷ []
routed (later r (takes a w rest e q h)) = routed r
routed (later r (times_out a e q h)) = routed r
routed (later r (closes a e q h)) = routed r
routed (later r (sweeps a e h)) = routed r
routed (later r (finishes xs ys a w rest e q)) = routed r

abbrev pub accepted : {s : Actor} → Reach s → List Work
accepted start_of = []
accepted (later {s} r (routes w)) = if room w s.route then accepted r ++ w ∷ [] else accepted r
accepted (later r (takes a w rest e q h)) = accepted r
accepted (later r (times_out a e q h)) = accepted r
accepted (later r (closes a e q h)) = accepted r
accepted (later r (sweeps a e h)) = accepted r
accepted (later r (finishes xs ys a w rest e q)) = accepted r

-- A task that has waited in vain has closed its queue.
abbrev Settled : Option ActorQueue → Type 0
Settled none = Unit
Settled (some a) = a.timed_out ≡ a.closed

-- The router is given no message between the end of a task's wait and the closing of its queue.
abbrev pub Prompt : {s : Actor} → Reach s → Type 0
Prompt start_of = Unit
Prompt (later {s} r (routes w)) = Prompt r × Settled s.route
Prompt (later r (takes a w rest e q h)) = Prompt r
Prompt (later r (times_out a e q h)) = Prompt r
Prompt (later r (closes a e q h)) = Prompt r
Prompt (later r (sweeps a e h)) = Prompt r
Prompt (later r (finishes xs ys a w rest e q)) = Prompt r

abbrev pub waiting : Option ActorQueue → List Work
waiting none = []
waiting (some a) = a.queue

-- What a task leaves behind is empty.
record IsIdle (a : ActorQueue) : Type 0 where
  pub timed_out : a.timed_out ≡ true → a.queue ≡ []
  pub closed : a.closed ≡ true → a.timed_out ≡ true

abbrev RouteIdle : Option ActorQueue → Type 0
RouteIdle none = Unit
RouteIdle (some a) = IsIdle a

abbrev Empty : ActorQueue → Type 0
Empty a = a.queue ≡ []

record Ordered (s : Actor) (l : List Work) : Type 0 where
  pub order : s.processed ++ waiting s.route ≡ l
  pub current : RouteIdle s.route
  pub older : All Empty s.older

start-IsIdle : (w : Work) → IsIdle (start w)
unfolding start
start-IsIdle w = record { timed_out = λ h. ground arith; closed = λ h. ground arith }

module _ (w : Work) (s : Actor) (l : List Work) (v : Ordered s l) where
  appended : (xs : List Work) → s.processed ++ xs ≡ l → s.processed ++ (xs ++ w ∷ []) ≡ l ++ w ∷ []
  appended xs e = sym (append_assoc s.processed xs (w ∷ [])) ∙ ap (λ k. k ++ w ∷ []) e

  send-Ordered :
      (a : ActorQueue) (q : Queued)
      → s.processed ++ a.queue ≡ l
      → IsIdle a
      → a.timed_out ≡ a.closed
      → Ordered (send w q a s).0 (l ++ w ∷ [])
  unfolding start
  send-Ordered a q e i p = elim (Bool-cases a.closed) [
    | inl shut ↦
        let empty : a.queue ≡ [] = i.timed_out (i.closed shut) in
        rw shut (record {
          order = appended [] (subst (λ k. s.processed ++ k ≡ l) empty e);
          current = start-IsIdle w;
          older = (empty, v.older);
        })
    | inr open' ↦
        let waits : a.timed_out ≡ false = p ∙ open' in
        rw open' (record {
          order = appended a.queue e;
          current = record { timed_out = λ h. ground arith; closed = λ h. ground arith };
          older = v.older;
        })
  ]

  route_to-Ordered :
      (o : Option ActorQueue)
      → s.processed ++ waiting o ≡ l
      → RouteIdle o
      → Settled o
      → Ordered (route_to w o s).0 (if room w o then l ++ w ∷ [] else l)
  unfolding start
  route_to-Ordered none e i p = record {
    order = appended [] e;
    current = start-IsIdle w;
    older = v.older;
  }
  route_to-Ordered (some a) e i p = elim (Bool-cases (admit (length w.payload) a.queued).1) [
    | inl yes' ↦ rw yes' (send-Ordered a _ e i p)
    | inr full ↦ rw full v
  ]

taken-Ordered :
    (s : Actor) (l : List Work)
    → Ordered s l
    → (a : ActorQueue) → s.route ≡ some a
    → (w : Work) (rest : List Work) → a.queue ≡ w ∷ rest
    → Ordered (record s { route = some (take w rest a); processed = s.processed ++ w ∷ [] }) l
taken-Ordered s l v a e w rest q =
    let i : IsIdle a = subst RouteIdle e v.current in
    record {
      order =
          append_assoc s.processed (w ∷ []) rest
          ∙ subst (λ k. s.processed ++ k ≡ l) (ap waiting e ∙ q) v.order;
      current = record {
        timed_out = λ h.
            let n : length (w ∷ rest) ≡ 0 = ap length (sym q ∙ i.timed_out h) in
            absurd (omega arith);
        closed = i.closed;
      };
      older = v.older;
    }

no_finish : (xs ys : List ActorQueue) (a : ActorQueue) → All Empty (xs ++ a ∷ ys) → a.queue ≡ []
no_finish [] ys a h = h.0
no_finish (x ∷ xs) ys a h = no_finish xs ys a h.1

Reach-Ordered : {s : Actor} (r : Reach s) → Prompt r → Ordered s (accepted r)
unfolding route
Reach-Ordered start_of p = record { order = refl; current = tt; older = tt }
Reach-Ordered (later {s} r (routes w)) p =
    let v = Reach-Ordered r p.0 in route_to-Ordered w s (accepted r) v s.route v.order v.current p.1
Reach-Ordered (later {s} r (takes a w rest e q h)) p =
    let v = Reach-Ordered r p in taken-Ordered s (accepted r) v a e w rest q
Reach-Ordered (later {s} r (times_out a e q h)) p =
    let v = Reach-Ordered r p in
    let i : IsIdle a = subst RouteIdle e v.current in
    record {
      order = subst (λ o. s.processed ++ waiting o ≡ accepted r) e v.order;
      current = record { timed_out = λ k. q; closed = λ k. refl };
      older = v.older;
    }
Reach-Ordered (later {s} r (closes a e q h)) p =
    let v = Reach-Ordered r p in
    let i : IsIdle a = subst RouteIdle e v.current in
    record {
      order = subst (λ o. s.processed ++ waiting o ≡ accepted r) e v.order;
      current = record { timed_out = i.timed_out; closed = λ k. q };
      older = v.older;
    }
Reach-Ordered (later {s} r (sweeps a e h)) p =
    let v = Reach-Ordered r p in
    let i : IsIdle a = subst RouteIdle e v.current in
    let empty : a.queue ≡ [] = i.timed_out (i.closed h) in
    record {
      order = subst (λ k. s.processed ++ k ≡ accepted r) (ap waiting e ∙ empty) v.order;
      current = tt;
      older = (empty, v.older);
    }
Reach-Ordered (later {s} r (finishes xs ys a w rest e q)) p =
    let v = Reach-Ordered r p in
    let n : length (w ∷ rest) ≡ 0 =
      ap length (sym q ∙ no_finish xs ys a (subst (All Empty) e v.older)) in
    absurd (omega arith)

-- The messages that are taken, then those that wait, are those that the router let in, in its order, if it
-- is given no message between the end of a task's wait and the closing of its queue.
pub Reach-order : {s : Actor} (r : Reach s) → Prompt r → s.processed ++ waiting s.route ≡ accepted r
Reach-order r p = (Reach-Ordered r p).order
