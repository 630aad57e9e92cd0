-- ===== src/Distr/Messaging/Send.antt =====
-- crates/distr/src/messaging/send.rs, and the requests that wire.rs exports: how a message is put on its way
-- to an actor on another node.
pub mod Outcome
pub mod Casts
use zestors.Base.{
  ℕ, zero, suc, ◌+◌, ◌%◌, ◌^◌, Bool, true, false, not, Option, none, some, Result, ok, err, List,
  [], ◌∷◌, ◌++◌, length, ltb, if◌then◌else◌,
}
use zestors.External.DashMap.{DashMap}
use zestors.External.HashModels.{numbers}
use zestors.Distr.Bytes.{Bytes}
use zestors.Distr.Frame.{Frame, message, encode}
use zestors.Distr.Links.Streams.{max_message_size}
use zestors.Distr.Cluster.State.{MemberList, member, is_reachable}
use zestors.Distr.Cluster.Member.{Member}
use zestors.Distr.Messaging.Pending.{PendingCall, Pending, expect, remove}

-- `CastFailure` of messaging/error.rs, as far as the network path goes.
pub data CastFailure : Type 0 where
  not_running not_a_member unreachable full encode_failed : CastFailure
  too_large : ℕ → ℕ → CastFailure

-- What a message is to its sender: its id, whether it expects a reply, how many requests it holds, and what
-- it is encoded to when they go by those ids, if it can be.
pub record Outgoing : Type 0 where
  pub id : ℕ
  pub replies : Bool
  pub requests : ℕ
  pub encoded : List ℕ → Option Bytes

-- An actor on another node.
pub record Target : Type 0 where
  pub node : ℕ
  pub name : Bytes

-- What became of a frame at its lane.
pub data LaneAnswer : Type 0 where
  taken is_full is_closed : LaneAnswer

module _ (D : DashMap numbers PendingCall) where
  pub record Messaging : Type 0 where
    pub pending : Pending D
    pub next_call : ℕ

  -- `next_call.fetch_add(1)`.
  abbrev pub take_id : Messaging → Messaging
  take_id m = record m { next_call = (m.next_call + 1) % 2 ^ 64 }

  -- An id is taken, and waits for the node.
  unfoldable pub export : ℕ → Messaging → Messaging
  export node m = record (take_id m) { pending = expect D m.next_call node m.pending }

  -- The requests of a message, exported one after the other.
  unfoldable pub export_all : ℕ → ℕ → Messaging → Messaging × List ℕ
  unfolding export
  export_all node zero m = (m, [])
  export_all node (suc n) m =
      let (m', ids) = export_all node n (export node m) in (m', m.next_call ∷ ids)

  -- The drop of `Exports` that were not committed.
  unfoldable pub forget_all : List ℕ → Messaging → Messaging
  forget_all [] m = m
  forget_all (id ∷ ids) m = forget_all ids (record m { pending = remove D id m.pending })

  -- A message that is ready, and what to forget if it is not sent.
  pub record Prepared : Type 0 where
    pub frame : Bytes
    pub exports : List ℕ
    pub call : Option ℕ

  abbrev pub call_id_of : Bool → Messaging → Option ℕ × Messaging
  call_id_of true m = (some m.next_call, take_id m)
  call_id_of false m = (none, m)

  abbrev pub expect_reply : ℕ → Option ℕ → Messaging → Messaging
  expect_reply node none m = m
  expect_reply node (some id) m = record m { pending = expect D id node m.pending }

  abbrev pub framed :
      Target → Outgoing → List ℕ → Bytes → Messaging → Messaging × Result Prepared CastFailure
  framed target msg ids payload m =
      let (call, m') = call_id_of msg.replies m in
      let frame = encode (message call target.name msg.id ids payload) in
      if ltb max_message_size (length frame)
      then (forget_all ids m', err (too_large (length frame) max_message_size))
      else (
        expect_reply target.node call m',
        ok (record { frame = frame; exports = ids; call = call }),
      )

  abbrev pub encoded_as :
      Target
      → Outgoing
      → List ℕ
      → Option Bytes
      → Messaging
      → Messaging × Result Prepared CastFailure
  encoded_as target msg ids none m = (forget_all ids m, err encode_failed)
  encoded_as target msg ids (some payload) m = framed target msg ids payload m

  abbrev pub prepare_for :
      Option Member → Bool → Target → Outgoing → Messaging → Messaging × Result Prepared CastFailure
  prepare_for none reach target msg m = (m, err not_a_member)
  prepare_for (some to) reach target msg m =
      if not reach
      then (m, err unreachable)
      else (let (m', ids) = export_all target.node msg.requests m in
          encoded_as target msg ids (msg.encoded ids) m')

  unfoldable pub prepare :
      Bool → MemberList → Target → Outgoing → Messaging → Messaging × Result Prepared CastFailure
  unfolding export_all forget_all
  prepare running cluster target msg m =
      if not running
      then (m, err not_running)
      else prepare_for (member target.node cluster) (is_reachable target.node cluster) target msg m

  -- The guard of the call is dropped.
  abbrev pub give_up : Option ℕ → Messaging → Messaging
  give_up none m = m
  give_up (some id) m = record m { pending = remove D id m.pending }

  abbrev pub at_lane :
      LaneAnswer → Messaging × Result Prepared CastFailure → Messaging × Result Prepared CastFailure
  at_lane answer (m, err e) = (m, err e)
  at_lane taken (m, ok p) = (m, ok p)
  at_lane is_full (m, ok p) = (forget_all p.exports (give_up p.call m), err full)
  at_lane is_closed (m, ok p) = (forget_all p.exports (give_up p.call m), err unreachable)

  -- `try_cast_remote`. `cast_remote` and `call_op_with` wait for room: for them no lane is full.
  unfoldable pub try_cast_remote :
      LaneAnswer
      → Bool
      → MemberList
      → Target
      → Outgoing
      → Messaging
      → Messaging × Result Prepared CastFailure
  unfolding prepare
  try_cast_remote answer running cluster target msg m =
      at_lane answer (prepare running cluster target msg m)
