-- ===== src/Runtime/Channel/Shutdown.antt =====
-- What an actor receives while it is suspended, while signals are queued, and while it shuts down.
use zestors.Base.{
  ℕ, ◌≡◌, refl, sym, ap, subst, ◌∙◌, Option-cases, ◌≢◌, inl, inr, Bool, Option, none, some, List,
  [], ◌∷◌, arith,
}
use zestors.Runtime.Status.{suspended}
use zestors.Runtime.Lifecycle.{Lifecycle}
use zestors.Runtime.Channel.{
  SignalInterface, Signal, ping, Handled, handle_signal, Queues, Channel, pop_signal, pop_msg,
}
use zestors.Runtime.Channel.Signals.{deliver, pop_signal-deliver}
use zestors.Runtime.Channel.Events.{
  InboxEvent, message, Poll, ready, pending, Received, next_event, select_event,
}

-- The pings among signals.
abbrev pub pings : List SignalInterface → List ℕ
pings [] = []
pings (ping id ∷ ss) = id ∷ pings ss
pings (SignalInterface.shutdown ∷ ss) = pings ss
pings (SignalInterface.suspend ∷ ss) = pings ss
pings (SignalInterface.resume ∷ ss) = pings ss

-- Signals none of which the actor sees are all handled; only pings are replied to.
deliver-absorbed :
    (ss : List SignalInterface) (c : Lifecycle)
    → (deliver ss c).1.1 ≡ none
    → deliver ss c ≡ ([], (c, none, pings ss))
unfolding deliver handle_signal
deliver-absorbed [] c h = refl
deliver-absorbed (ping id ∷ ss) c h =
    ap (λ (d : List SignalInterface × Handled). (d.0, (d.1.0, d.1.1, id ∷ d.1.2)))
      (deliver-absorbed ss c h)
deliver-absorbed (SignalInterface.shutdown ∷ ss) c h = cc
deliver-absorbed (SignalInterface.suspend ∷ ss) c h = ground (arith, deliver-absorbed ss c)
deliver-absorbed (SignalInterface.resume ∷ ss) c h = ground (arith, deliver-absorbed ss c)

module _ {Msg : Type 0} (Q : Queues Msg) where
  -- `pop_msg` takes the oldest message, if there is one, and touches nothing else.
  abbrev pub PopsMsg : Channel Q → List Msg → Channel Q × Option Msg → Type 0
  PopsMsg c [] r = (r.0 ≡ c) × (r.1 ≡ none)
  PopsMsg c (m ∷ ms) r =
      (r.0 ≡ record c { msg_queue = r.0.msg_queue })
      × (Q.msgs.contents r.0.msg_queue ≡ ms)
      × (r.1 ≡ some m)

  pub pop_msg-PopsMsg :
      (ms : List Msg) (c : Channel Q)
      → Q.msgs.contents c.msg_queue ≡ ms
      → PopsMsg c ms (pop_msg Q c)
  unfolding pop_msg
  pop_msg-PopsMsg [] c e = ground (arith, Q.msgs.pop-empty c.msg_queue e)
  pop_msg-PopsMsg (m ∷ ms) c e = ground (arith, Q.msgs.pop-cons c.msg_queue m ms e)

  pop_msg-some_of :
      (ms : List Msg) (c : Channel Q) (m : Msg)
      → Q.msgs.contents c.msg_queue ≡ ms
      → (pop_msg Q c).1 ≡ some m
      → ms ≡ m ∷ Q.msgs.contents (pop_msg Q c).0.msg_queue
  pop_msg-some_of [] c m e h = ground (arith, pop_msg-PopsMsg [] c e)
  pop_msg-some_of (n ∷ ns) c m e h = ground (arith, pop_msg-PopsMsg (n ∷ ns) c e)

  -- The event that a receive gives, if it gives one.
  abbrev event_of : Poll (Option (InboxEvent Msg)) → Option (InboxEvent Msg)
  event_of (ready e) = e
  event_of pending = none

  -- A receive that gives this message takes it as the oldest one queued, after all signals were handled
  -- without the actor seeing one, and leaves all else of the channel as it was.
  pub record GivesMessage (c : Channel Q) (m : Msg)
      (r : Received Q (Poll (Option (InboxEvent Msg)))) : Type 0 where
    pub oldest : Q.msgs.contents c.msg_queue ≡ m ∷ Q.msgs.contents r.0.msg_queue
    pub unseen : (deliver (Q.signals.contents c.signal_queue) c.life).1.1 ≡ none
    pub no_signals : Q.signals.contents r.0.signal_queue ≡ []
    pub replied : r.2 ≡ pings (Q.signals.contents c.signal_queue)
    pub else_same : r.0 ≡ record c { signal_queue = r.0.signal_queue; msg_queue = r.0.msg_queue }

  -- Once the signals were popped and none was seen.
  popped :
      (c : Channel Q)
      → (pop_signal Q c).1 ≡ none
      → ((deliver (Q.signals.contents c.signal_queue) c.life).1.1 ≡ none)
        × (Q.signals.contents (pop_signal Q c).0.signal_queue ≡ [])
        × ((pop_signal Q c).2 ≡ pings (Q.signals.contents c.signal_queue))
        × ((pop_signal Q c).0 ≡ record c { signal_queue = (pop_signal Q c).0.signal_queue })
  popped c h =
      let p = (pop_signal-deliver Q c).1 in
      let none' : (deliver (Q.signals.contents c.signal_queue) c.life).1.1 ≡ none = sym p.2 ∙ h in
      let all' = deliver-absorbed (Q.signals.contents c.signal_queue) c.life none' in
      (
        none',
        p.1 ∙ ap (λ d. d.0) all',
        p.3 ∙ ap (λ d. d.1.2) all',
        p.0
            ∙ ap
                (λ (d : List SignalInterface × Handled). record c {
                  life = d.1.0;
                  signal_queue = (pop_signal Q c).0.signal_queue;
                })
                all',
      )

  pop_msg-same :
      (ms : List Msg) (c : Channel Q)
      → Q.msgs.contents c.msg_queue ≡ ms
      → (pop_msg Q c).0 ≡ record c { msg_queue = (pop_msg Q c).0.msg_queue }
  pop_msg-same [] c e =
      let p = (pop_msg-PopsMsg [] c e).0 in
      p ∙ ap (λ q. record c { msg_queue = q }) (sym (ap (λ (d : Channel Q). d.msg_queue) p))
  pop_msg-same (m ∷ ms) c e = (pop_msg-PopsMsg (m ∷ ms) c e).0

  seen_first :
      (c : Channel Q) (s : Signal)
      → (pop_signal Q c).1 ≡ some s
      → event_of (select_event Q c).1 ≡ some (InboxEvent.signal s)
  unfolding select_event
  seen_first c s e = ground arith

  nothing_queued :
      (c : Channel Q)
      → (pop_signal Q c).1 ≡ none
      → (pop_msg Q (pop_signal Q c).0).1 ≡ none
      → event_of (select_event Q c).1 ≡ none
  unfolding select_event
  nothing_queued c e f = ground arith

  selects :
      (c : Channel Q) (m : Msg)
      → (pop_signal Q c).1 ≡ none
      → (pop_msg Q (pop_signal Q c).0).1 ≡ some m
      → select_event Q c
        ≡ ((pop_msg Q (pop_signal Q c).0).0, ready (some (message m)), (pop_signal Q c).2)
  unfolding select_event
  selects c m e f = ground arith

  gives :
      (c : Channel Q) (m : Msg)
      → (pop_signal Q c).1 ≡ none
      → (pop_msg Q (pop_signal Q c).0).1 ≡ some m
      → GivesMessage c m
          ((pop_msg Q (pop_signal Q c).0).0, ready (some (message m)), (pop_signal Q c).2)
  gives c m unseen got =
      let c1 = (pop_signal Q c).0 in
      let (none', left, replies, same) = popped c unseen in
      let msgs : Q.msgs.contents c1.msg_queue ≡ Q.msgs.contents c.msg_queue =
        ap (λ (d : Channel Q). Q.msgs.contents d.msg_queue) same in
      let taken = pop_msg-same (Q.msgs.contents c1.msg_queue) c1 refl in
      let signals = ap (λ (d : Channel Q). d.signal_queue) taken in
      record {
        oldest = pop_msg-some_of (Q.msgs.contents c.msg_queue) c1 m msgs got;
        unseen = none';
        no_signals = ap Q.signals.contents signals ∙ left;
        replied = replies;
        else_same =
            taken
            ∙ ap (λ (d : Channel Q). record d { msg_queue = (pop_msg Q c1).0.msg_queue }) same
            ∙ ap (λ q. record c { signal_queue = q; msg_queue = (pop_msg Q c1).0.msg_queue })
                (sym signals);
      }

  select_event-GivesMessage :
      (c : Channel Q) (m : Msg)
      → event_of (select_event Q c).1 ≡ some (message m)
      → GivesMessage c m (select_event Q c)
  select_event-GivesMessage c m h = elim (Option-cases (pop_signal Q c).1) [
    | inl unseen ↦ elim (Option-cases (pop_msg Q (pop_signal Q c).0).1) [
      | inl empty ↦
          let clash : none ≡ some (message m) = sym (nothing_queued c unseen empty) ∙ h in cc
      | inr (n, got) ↦
          let e = selects c n unseen got in
          let same : n ≡ m =
            let both : some (message n) ≡ some (message m) = sym (ap (λ r. event_of r.1) e) ∙ h in
            cc in
          subst (GivesMessage c m) (sym e) (
            subst
              (λ k.
                GivesMessage c m
                  ((pop_msg Q (pop_signal Q c).0).0, ready (some (message k)), (pop_signal Q c).2))
              (sym same) (gives c m unseen (got ∙ ap some same)))
    ]
    | inr (s, seen) ↦
        let clash : some (InboxEvent.signal s) ≡ some (message m) = sym (seen_first c s seen) ∙ h in
        cc
  ]

  next_event-select :
      (while_exiting : Bool) (c : Channel Q) (m : Msg)
      → event_of (next_event Q while_exiting c).1 ≡ some (message m)
      → (c.life.status ≢ suspended) × (next_event Q while_exiting c ≡ select_event Q c)
  unfolding next_event
  next_event-select while_exiting c m h = ground arith

  -- A message is received only by an actor that is not suspended. It is then the oldest message queued; every
  -- queued signal has been handled, none of them was for the actor to see, every ping among them is replied
  -- to, in their order, and no signal is left; and nothing else of the channel has changed.
  pub next_event-message :
      (while_exiting : Bool) (c : Channel Q) (m : Msg)
      → event_of (next_event Q while_exiting c).1 ≡ some (message m)
      → (c.life.status ≢ suspended) × GivesMessage c m (next_event Q while_exiting c)
  next_event-message while_exiting c m h =
      let (awake, e) = next_event-select while_exiting c m h in
      (
        awake,
        subst (GivesMessage c m) (sym e)
            (select_event-GivesMessage c m (ap (λ r. event_of r.1) (sym e) ∙ h)),
      )
