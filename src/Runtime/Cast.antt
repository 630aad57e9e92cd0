-- ===== src/Runtime/Cast.antt =====
-- crates/runtime/src/channel/cast.rs, with `try_push_msg` and `assert_msg_room` of channel/data.rs and
-- the test of queue/backpressure.rs: sending a message to a channel.
pub mod Laws
use zestors.Base.{
  ℕ, ◌*◌, Bool, true, false, not, ◌&&◌, ◌||◌, Option, none, some, Result, ok, err, Run, returns,
  panics, ◌>>=◌, ltb, leb, ◌==◌, if◌then◌else◌,
}
use zestors.Runtime.Status.{accepts_messages, is_exiting}
use zestors.Runtime.Channel.{Queues, Channel, msg_len}

-- `CallOptions` of crates/runtime/src/accepts.rs.
pub record CallOptions : Type 0 where
  pub ignore_exiting : Bool
  pub ignore_backpressure : Bool

-- `starts_at` is the fraction `starts_num / starts_den`.
pub record BackpressureConfig : Type 0 where
  pub starts_num : ℕ
  pub starts_den : ℕ

-- `BackpressureConfig::global`: from half of the limit on.
abbrev pub global : BackpressureConfig
global = record { starts_num = 1; starts_den = 2 }

-- Whether `BackpressureConfig::delay` gives a delay. How long it is, a computation on floats, is left out.
unfoldable pub delays : BackpressureConfig → ℕ → ℕ → Bool
delays cfg len limit = not (limit == 0 || ltb (len * cfg.starts_den) (cfg.starts_num * limit))

-- The errors hand the message back.
pub data TryCastError (M : Type 0) : Type 0 where
  closed full : M → TryCastError M

pub data TryCastDynError (M : Type 0) : Type 0 where
  closed full not_accepted : M → TryCastDynError M

pub record CastError (M : Type 0) : Type 0 where
  pub msg : M

-- What a channel makes of the messages of a type. `raw_queue` is how they get into the queue, if that is a queue
-- of the address's interface (`Channel::raw_queue::<I>()`); a message of any type is converted if the channel's
-- own interface has it.
pub record Accepts (M Msg : Type 0) : Type 0 where
  pub raw_queue : Option (M → Msg)
  pub try_from_dyn : M → Option Msg

module _ {Msg : Type 0} (Q : Queues Msg) where
  unfoldable pub reached_backpressure : Channel Q → Bool
  unfolding delays
  reached_backpressure c = delays global (msg_len Q c) c.msg_backpressure_limit

  -- `assert_msg_room`: a full queue panics.
  abbrev pub assert_msg_room : Channel Q → Run (Unit {0})
  assert_msg_room c = if leb c.msg_queue_limit (msg_len Q c) then panics else returns tt

  abbrev pub push_msg : Channel Q → Msg → Channel Q
  push_msg c m = record c { msg_queue = Q.msgs.push c.msg_queue m }

  -- Whether a message sent with these options is let in as far as the status goes.
  abbrev pub is_open : Channel Q → CallOptions → Bool
  is_open c o = accepts_messages c.life.status || (o.ignore_exiting && is_exiting c.life.status)

  module _ {M : Type 0} (I : Accepts M Msg) where
    -- `try_push_msg`: room first, then the conversion, then the push.
    unfoldable pub try_push_msg : Channel Q → M → Run (Channel Q × Result (Unit {0}) M)
    try_push_msg c msg = assert_msg_room c >>= λ _. elim (I.try_from_dyn msg) [
      | none ↦ returns (c, err msg)
      | some m ↦ returns (push_msg c m, ok tt)
    ]

    unfoldable pub try_cast_dyn_with :
        Channel Q → M → CallOptions → Run (Channel Q × Result (Unit {0}) (TryCastDynError M))
    unfolding reached_backpressure try_push_msg
    try_cast_dyn_with c msg o =
        if not o.ignore_backpressure && reached_backpressure c
        then returns (c, err (TryCastDynError.full msg))
        else if not (is_open c o)
        then returns (c, err (TryCastDynError.closed msg))
        else (try_push_msg c msg >>= λ (c', pushed). elim pushed [
          | ok _ ↦ returns (c', ok tt)
          | err m ↦ returns (c', err (not_accepted m))
        ])

    -- The fallback of `try_cast_with`: that the message is not accepted there is a panic.
    unfoldable pub try_cast_other :
        Channel Q → M → CallOptions → Run (Channel Q × Result (Unit {0}) (TryCastError M))
    unfolding try_cast_dyn_with
    try_cast_other c msg o = try_cast_dyn_with c msg o >>= λ (c', sent). elim sent [
      | ok _ ↦ returns (c', ok tt)
      | err e ↦ elim e [
        | TryCastDynError.closed m ↦ returns (c', err (TryCastError.closed m))
        | TryCastDynError.full m ↦ returns (c', err (TryCastError.full m))
        | not_accepted m ↦ panics
      ]
    ]

    -- The rest of `try_cast_with`, with the queue that it found.
    unfoldable pub try_cast_static :
        (M → Msg)
        → Channel Q
        → M
        → CallOptions
        → Run (Channel Q × Result (Unit {0}) (TryCastError M))
    unfolding reached_backpressure
    try_cast_static from c msg o =
        if not o.ignore_backpressure && reached_backpressure c
        then returns (c, err (TryCastError.full msg))
        else if not (is_open c o)
        then returns (c, err (TryCastError.closed msg))
        else (assert_msg_room c >>= λ _. returns (push_msg c (from msg), ok tt))

    unfoldable pub try_cast_with :
        Channel Q → M → CallOptions → Run (Channel Q × Result (Unit {0}) (TryCastError M))
    unfolding try_cast_other try_cast_static
    try_cast_with c msg o = elim I.raw_queue [
      | none ↦ try_cast_other c msg o
      | some from ↦ try_cast_static from c msg o
    ]

    -- `into_cast_error_dbg_assert`, with debug assertions on.
    abbrev into_cast_error : TryCastError M → Run (CastError M)
    into_cast_error (TryCastError.closed m) = returns (record { msg = m })
    into_cast_error (TryCastError.full m) = panics

    abbrev pub cast_result :
        Channel Q × Result (Unit {0}) (TryCastError M)
        → Run (Channel Q × Result (Unit {0}) (CastError M))
    cast_result (c, ok _) = returns (c, ok tt)
    cast_result (c, err e) = into_cast_error e >>= λ e'. returns (c, err e')

    -- `cast_with`, once it has waited out the backpressure: `c` is the channel as it is then.
    unfoldable pub cast_with :
        Channel Q → M → CallOptions → Run (Channel Q × Result (Unit {0}) (CastError M))
    unfolding try_cast_with
    cast_with c msg o =
        try_cast_with c msg (record o { ignore_backpressure = true }) >>= cast_result
