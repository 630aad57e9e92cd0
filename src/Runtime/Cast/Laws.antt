-- ===== src/Runtime/Cast/Laws.antt =====
-- What sending does, on every branch, and that the message queue keeps to its limit.
use zestors.Base.{
  suc, ◌≤◌, ◌<◌, ◌≡◌, refl, ap, subst, ◌⊎◌, true, false, Option, none, some, List, [], ◌∷◌, ◌++◌,
  length, length-append, Result, ok, err, Run, returns, panics, ◌>>=◌, arith,
}
use zestors.Base.Maps.{is_some}
use zestors.Runtime.Channel.{Queues, Channel, msg_len}
use zestors.Runtime.Cast.{
  CallOptions, Accepts, TryCastError, TryCastDynError, CastError, is_open, reached_backpressure,
  push_msg, try_cast_dyn_with, try_cast_other, try_cast_static, try_push_msg, try_cast_with,
  cast_result, cast_with,
}

module _ {Msg : Type 0} (Q : Queues Msg) {M : Type 0} (I : Accepts M Msg) where
  len-push : (c : Channel Q) (m : Msg) → msg_len Q (push_msg Q c m) ≡ suc (msg_len Q c)
  len-push c m = omega (
    arith,
    Q.msgs.len-contents c.msg_queue,
    Q.msgs.len-contents (Q.msgs.push c.msg_queue m),
    ap length (Q.msgs.contents-push c.msg_queue m),
    length-append (Q.msgs.contents c.msg_queue) (m ∷ []),
  )

  -- What a message becomes in the queue, if the channel takes it.
  abbrev pub queued_by : Option (M → Msg) → M → Option Msg
  queued_by none msg = I.try_from_dyn msg
  queued_by (some from) msg = some (from msg)

  abbrev pub queued_as : M → Option Msg
  queued_as msg = queued_by I.raw_queue msg

  abbrev pub entries : Option Msg → List Msg
  entries none = []
  entries (some m) = m ∷ []

  -- The outcome of a try: taken as the last message queued, refused with the message and nothing
  -- changed, or a panic; and each exactly when it should be.
  abbrev pub TriedAs :
      Option Msg
      → Channel Q
      → M
      → CallOptions
      → Run (Channel Q × Result (Unit {0}) (TryCastError M))
      → Type 0
  TriedAs queued c msg o (returns (c', ok _)) =
      (is_some queued ≡ true)
      × (Q.msgs.contents c'.msg_queue ≡ Q.msgs.contents c.msg_queue ++ entries queued)
      × (c' ≡ record c { msg_queue = c'.msg_queue })
      × (is_open Q c o ≡ true)
      × (msg_len Q c < c.msg_queue_limit)
      × ((o.ignore_backpressure ≡ true) ⊎ (reached_backpressure Q c ≡ false))
  TriedAs queued c msg o (returns (c', err (TryCastError.full m))) =
      (c' ≡ c) × (m ≡ msg) × (o.ignore_backpressure ≡ false) × (reached_backpressure Q c ≡ true)
  TriedAs queued c msg o (returns (c', err (TryCastError.closed m))) =
      (c' ≡ c) × (m ≡ msg) × (is_open Q c o ≡ false)
  TriedAs queued c msg o panics =
      (is_open Q c o ≡ true)
      × ((o.ignore_backpressure ≡ true) ⊎ (reached_backpressure Q c ≡ false))
      × ((c.msg_queue_limit ≤ msg_len Q c) ⊎ (is_some queued ≡ false))

  abbrev pub Tried :
      Channel Q → M → CallOptions → Run (Channel Q × Result (Unit {0}) (TryCastError M)) → Type 0
  Tried c msg o r = TriedAs (queued_as msg) c msg o r

  static-Tried :
      (from : M → Msg) (c : Channel Q) (msg : M) (o : CallOptions)
      → TriedAs (some (from msg)) c msg o (try_cast_static Q I from c msg o)
  unfolding try_cast_static
  static-Tried from c msg o = ground (arith, Q.msgs.contents-push c.msg_queue (from msg))

  pushed-Tried :
      (queued : Option Msg) (c : Channel Q) (msg : M) (o : CallOptions)
      → I.try_from_dyn msg ≡ queued
      → TriedAs queued c msg o (try_cast_other Q I c msg o)
  unfolding try_cast_other try_cast_dyn_with try_push_msg
  pushed-Tried none c msg o e = ground arith
  pushed-Tried (some m) c msg o e = ground (arith, Q.msgs.contents-push c.msg_queue m)

  by_queue :
      (q : Option (M → Msg)) (c : Channel Q) (msg : M) (o : CallOptions)
      → TriedAs (queued_by q msg) c msg o (elim q [
        | none ↦ try_cast_other Q I c msg o
        | some from ↦ try_cast_static Q I from c msg o
      ])
  by_queue none c msg o = pushed-Tried (I.try_from_dyn msg) c msg o refl
  by_queue (some from) c msg o = static-Tried from c msg o

  -- `try_cast_with` appends the message, as the channel's interface has it, to the queue and changes nothing else,
  -- if the channel is open to it, has room and is below its backpressure limit (or that is ignored); it returns
  -- the message and changes nothing, as full under backpressure and as closed when the channel is not open; and
  -- it panics only when an open channel's queue is at its hard limit, or when the queue is not of the address's
  -- interface and the channel's own interface does not have the message.
  pub try_cast_with-Tried :
      (c : Channel Q) (msg : M) (o : CallOptions) → Tried c msg o (try_cast_with Q I c msg o)
  unfolding try_cast_with
  try_cast_with-Tried c msg o = by_queue I.raw_queue c msg o

  limit-TriedAs :
      (queued : Option Msg) (c c' : Channel Q) (msg : M) (o : CallOptions)
      (r : Result (Unit {0}) (TryCastError M))
      → TriedAs queued c msg o (returns (c', r))
      → msg_len Q c ≤ c.msg_queue_limit
      → msg_len Q c' ≤ c'.msg_queue_limit
  limit-TriedAs (some m) c c' msg o (ok _) t h =
      let longer = length-append {0} (Q.msgs.contents c.msg_queue) (m ∷ []) in
      let now = ap length t.1 in
      let limit : c'.msg_queue_limit ≡ c.msg_queue_limit =
        ap (λ (d : Channel Q). d.msg_queue_limit) t.2 in
      omega (arith, Q.msgs.len-contents c.msg_queue, Q.msgs.len-contents c'.msg_queue, t.4)
  limit-TriedAs none c c' msg o (ok _) t h = absurd (ground (arith, t.0))
  limit-TriedAs queued c c' msg o (err (TryCastError.full m)) t h = rw t.0 h
  limit-TriedAs queued c c' msg o (err (TryCastError.closed m)) t h = rw t.0 h

  -- Sending never takes the message queue past its limit.
  pub try_cast_with-limit :
      (c c' : Channel Q) (msg : M) (o : CallOptions) {r : Result (Unit {0}) (TryCastError M)}
      → try_cast_with Q I c msg o ≡ returns (c', r)
      → msg_len Q c ≤ c.msg_queue_limit
      → msg_len Q c' ≤ c'.msg_queue_limit
  try_cast_with-limit c c' msg o {r} e h =
      limit-TriedAs (queued_as msg) c c' msg o r
        (subst (Tried c msg o) e (try_cast_with-Tried c msg o)) h

  -- The outcome of a `cast` that has waited out the backpressure.
  abbrev pub CastAs :
      Option Msg
      → Channel Q
      → M
      → CallOptions
      → Run (Channel Q × Result (Unit {0}) (CastError M))
      → Type 0
  CastAs queued c msg o (returns (c', ok _)) =
      (is_some queued ≡ true)
      × (Q.msgs.contents c'.msg_queue ≡ Q.msgs.contents c.msg_queue ++ entries queued)
      × (c' ≡ record c { msg_queue = c'.msg_queue })
      × (is_open Q c o ≡ true)
      × (msg_len Q c < c.msg_queue_limit)
  CastAs queued c msg o (returns (c', err e)) = (c' ≡ c) × (e.msg ≡ msg) × (is_open Q c o ≡ false)
  CastAs queued c msg o panics =
      (is_open Q c o ≡ true) × ((c.msg_queue_limit ≤ msg_len Q c) ⊎ (is_some queued ≡ false))

  result-CastAs :
      (queued : Option Msg) (c : Channel Q) (msg : M) (o : CallOptions)
      (r : Run (Channel Q × Result (Unit {0}) (TryCastError M)))
      → TriedAs queued c msg (record o { ignore_backpressure = true }) r
      → CastAs queued c msg o (r >>= cast_result Q I)
  result-CastAs queued c msg o (returns (c', ok _)) t = (t.0, t.1, t.2, t.3, t.4)
  result-CastAs queued c msg o (returns (c', err (TryCastError.closed m))) t = t
  result-CastAs queued c msg o (returns (c', err (TryCastError.full m))) t =
      absurd (ground (arith, t.2))
  result-CastAs queued c msg o panics t = (t.0, t.2)

  -- A `cast` that has waited out the backpressure appends the message to the queue of an open channel with room
  -- and changes nothing else; or it returns the message of a channel that is not open, and changes nothing; and
  -- it panics only when an open channel's queue is at its hard limit, or when the queue is not of the address's
  -- interface and the channel's own interface does not have the message: not at its debug assertion.
  pub cast_with-CastAs :
      (c : Channel Q) (msg : M) (o : CallOptions)
      → CastAs (queued_as msg) c msg o (cast_with Q I c msg o)
  unfolding cast_with
  cast_with-CastAs c msg o =
      result-CastAs (queued_as msg) c msg o
        (try_cast_with Q I c msg (record o { ignore_backpressure = true }))
        (try_cast_with-Tried c msg (record o { ignore_backpressure = true }))

  -- For a message that the interface accepts, the dynamic path does what the static one does, errors
  -- and panics included.
  pub try_cast_other-try_cast_static :
      (from : M → Msg) (c : Channel Q) (msg : M) (o : CallOptions)
      → I.try_from_dyn msg ≡ some (from msg)
      → try_cast_other Q I c msg o ≡ try_cast_static Q I from c msg o
  unfolding try_cast_other try_cast_static try_cast_dyn_with try_push_msg
  try_cast_other-try_cast_static from c msg o h = ground arith

  -- A message that the interface does not accept is never queued: if the call returns, the channel is as
  -- it was and the message comes back, as full, closed or not accepted.
  pub try_cast_dyn_with-not_accepted :
      (c c' : Channel Q) (msg : M) (o : CallOptions) {r : Result (Unit {0}) (TryCastDynError M)}
      → I.try_from_dyn msg ≡ none
      → try_cast_dyn_with Q I c msg o ≡ returns (c', r)
      → (c' ≡ c)
        × ((r ≡ err (TryCastDynError.full msg))
            ⊎ ((r ≡ err (TryCastDynError.closed msg))
                ⊎ (r ≡ err (TryCastDynError.not_accepted msg))))
  unfolding try_cast_dyn_with
  try_cast_dyn_with-not_accepted c c' msg o h e = ground arith
