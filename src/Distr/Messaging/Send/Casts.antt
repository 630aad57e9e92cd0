-- ===== src/Distr/Messaging/Send/Casts.antt =====
-- What is left in the table of calls when a message was sent, and when it was not: the theorem.
use zestors.Base.{
  ℕ, ◌+◌, ◌<◌, ◌≤◌, ◌^◌, ◌≡◌, refl, sym, ◌∙◌, ap, inl, inr, Bool, true, false, Option, none, some,
  Result, ok, err, List, ◌++◌, length, ltb, if◌then◌else◌, elem, Bool-cases, arith,
}
use zestors.Base.Maps.{is_some}
use zestors.External.DashMap.{DashMap}
use zestors.External.HashModels.{numbers}
use zestors.Distr.Bytes.{Bytes}
use zestors.Distr.Frame.{message, encode}
use zestors.Distr.Cluster.State.{MemberList, member, is_reachable}
use zestors.Distr.Cluster.Member.{Member}
use zestors.Distr.Messaging.Pending.{PendingCall}
use zestors.Distr.Messaging.Send.{
  CastFailure, Outgoing, Target, LaneAnswer, taken, is_full, is_closed, Messaging, export,
  export_all, Prepared, call_id_of, expect_reply, framed, encoded_as, prepare_for, prepare, at_lane,
  try_cast_remote,
}
use zestors.Distr.Links.Streams.{max_message_size}
use zestors.Distr.Messaging.Send.Outcome.{
  call_at, Fresh, Adds, stays, Adds-append, export-Adds, export_all-Adds, forget_all-at, Unchanged,
  forgotten, call_list, give_up-at,
}

module _ (D : DashMap numbers PendingCall) where
  -- A message that was sent: the ids of the message, those of its requests and of the call itself, have
  -- come to wait for the node, and it was put in a frame that names them and is small enough.
  pub record Sent (target : Target) (msg : Outgoing) (m m' : Messaging D) (p : Prepared D)
      : Type 0 where
    pub adds : Adds D target.node (p.exports ++ call_list D p.call) m m'
    pub as_many : length p.exports ≡ msg.requests
    pub is_call : is_some p.call ≡ msg.replies
    pub payload : Bytes
    pub encoded : msg.encoded p.exports ≡ some payload
    pub frame : p.frame ≡ encode (message p.call target.name msg.id p.exports payload)
    pub fits : length p.frame ≤ max_message_size

  -- If it was not sent, no call has changed.
  abbrev pub Outcome :
      Target → Outgoing → Messaging D → Messaging D × Result (Prepared D) CastFailure → Type 0
  Outcome target msg m (m', err e) = Unchanged D m m'
  Outcome target msg m (m', ok p) = Sent target msg m m' p

  module _ (target : Target) (msg : Outgoing) (m : Messaging D) (free : Fresh D m)
      (room : m.next_call + msg.requests + 1 < 2 ^ 64) where
    -- A frame that is too large takes an id of the counter at most.
    counter_only :
        (r : Bool) (m1 : Messaging D) (id : ℕ)
        → call_at D (call_id_of D r m1).1 id ≡ call_at D m1 id
    counter_only true m1 id = refl
    counter_only false m1 id = refl

    call_expected :
        (r : Bool) (m1 : Messaging D)
        → m1.next_call + 1 < 2 ^ 64
        → Adds D target.node
            (call_list D (call_id_of D r m1).0)
            m1
            (expect_reply D target.node (call_id_of D r m1).0 (call_id_of D r m1).1)
          × (is_some (call_id_of D r m1).0 ≡ r)
    unfolding export
    call_expected true m1 h = (export-Adds D target.node m1 h, refl)
    call_expected false m1 h = (stays D target.node m1, refl)

    framed-Outcome :
        (ids : List ℕ) (payload : Bytes) (m1 : Messaging D)
        → Adds D target.node ids m m1
        → length ids ≡ msg.requests
        → msg.encoded ids ≡ some payload
        → Outcome target msg m (framed D target msg ids payload m1)
    framed-Outcome ids payload m1 a n e =
        let call = call_id_of D msg.replies m1 in
        let frame = encode (message call.0 target.name msg.id ids payload) in
        elim (Bool-cases (ltb max_message_size (length frame))) [
          | inl large ↦ rw large (λ id.
              forget_all-at D ids call.1 id
              ∙ (ap (λ o. if elem id ids then none else o) (counter_only msg.replies m1 id)
                  ∙ (sym (forget_all-at D ids m1 id) ∙ forgotten D target.node ids m m1 free a id)))
          | inr small ↦
              let c = call_expected msg.replies m1 (omega (arith, a.counted)) in
              rw small (record {
                adds =
                    Adds-append D target.node ids (call_list D call.0) m m1
                      (expect_reply D target.node call.0 call.1) a c.0;
                as_many = n;
                is_call = c.1;
                payload = payload;
                encoded = e;
                frame = refl;
                fits = ground arith;
              })
        ]

    encoded-Outcome :
        (ids : List ℕ) (o : Option Bytes) (m1 : Messaging D)
        → Adds D target.node ids m m1
        → length ids ≡ msg.requests
        → msg.encoded ids ≡ o
        → Outcome target msg m (encoded_as D target msg ids o m1)
    encoded-Outcome ids none m1 a n e = forgotten D target.node ids m m1 free a
    encoded-Outcome ids (some payload) m1 a n e = framed-Outcome ids payload m1 a n e

    prepare_for-Outcome :
        (to : Option Member) (reach : Bool)
        → Outcome target msg m (prepare_for D to reach target msg m)
    prepare_for-Outcome none reach = λ id. refl
    prepare_for-Outcome (some to) false = λ id. refl
    prepare_for-Outcome (some to) true =
        let (a, n) = export_all-Adds D target.node msg.requests m (omega arith) in
        let ids = (export_all D target.node msg.requests m).1 in
        encoded-Outcome ids (msg.encoded ids) (export_all D target.node msg.requests m).0 a n refl

    prepare-Outcome :
        (running : Bool) (cluster : MemberList)
        → Outcome target msg m (prepare D running cluster target msg m)
    unfolding prepare
    prepare-Outcome false cluster = λ id. refl
    prepare-Outcome true cluster =
        prepare_for-Outcome (member target.node cluster) (is_reachable target.node cluster)

    at_lane-Outcome :
        (answer : LaneAnswer) (m1 : Messaging D) (r : Result (Prepared D) CastFailure)
        → Outcome target msg m (m1, r)
        → Outcome target msg m (at_lane D answer (m1, r))
    at_lane-Outcome answer m1 (err e) o = o
    at_lane-Outcome taken m1 (ok p) o = o
    at_lane-Outcome is_full m1 (ok p) o = λ id.
        give_up-at D p.exports p.call m1 id
        ∙ forgotten D target.node (p.exports ++ call_list D p.call) m m1 free o.adds id
    at_lane-Outcome is_closed m1 (ok p) o = λ id.
        give_up-at D p.exports p.call m1 id
        ∙ forgotten D target.node (p.exports ++ call_list D p.call) m m1 free o.adds id

    -- When a message is sent to an actor on another node, its frame names an id for each request in the
    -- message and, if it expects a reply, one for the call; just these ids, which were free, come to wait
    -- for that node. When it is not sent, because the node does not run, the other is no member or
    -- not reachable, the message cannot be encoded or is too large, or the lane is full or closed, the
    -- table of calls is as it was. Ids from the counter on are free, and the counter does not wrap.
    pub try_cast_remote-Outcome :
        (answer : LaneAnswer) (running : Bool) (cluster : MemberList)
        → Outcome target msg m (try_cast_remote D answer running cluster target msg m)
    unfolding try_cast_remote
    try_cast_remote-Outcome answer running cluster =
        let r = prepare D running cluster target msg m in
        at_lane-Outcome answer r.0 r.1 (prepare-Outcome running cluster)
