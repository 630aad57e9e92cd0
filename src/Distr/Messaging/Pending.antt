-- ===== src/Distr/Messaging/Pending.antt =====
-- crates/distr/src/messaging/pending.rs: the calls that wait for a reply. A one-shot channel is the number of
-- channels that were made before it, and what is sent into channels is what an operation returns.
pub mod Once
pub mod Lost
use zestors.Base.{
  ℕ, suc, Bool, true, false, Option, none, some, Result, ok, err, List, [], ◌∷◌, ◌++◌, ◌==◌,
  if◌then◌else◌,
}
use zestors.External.DashMap.{DashMap}
use zestors.External.HashModels.{numbers}
use zestors.Distr.Bytes.{Bytes}
use zestors.Distr.Frame.{RemoteError}

-- `ClusterReplyError`, of which these two are answers.
pub data ClusterReplyError : Type 0 where
  remote : RemoteError → ClusterReplyError
  disconnected : ClusterReplyError

abbrev pub Answer : Type 0
Answer = ℕ × Result Bytes ClusterReplyError

pub record PendingCall : Type 0 where
  pub node : ℕ
  pub reply : ℕ

abbrev pub map_err : Result Bytes RemoteError → Result Bytes ClusterReplyError
map_err (ok payload) = ok payload
map_err (err e) = err (remote e)

module _ (D : DashMap numbers PendingCall) where
  -- The channels made so far are those below `next_reply`.
  pub record Pending : Type 0 where
    pub calls : D.Map
    pub next_reply : ℕ

  unfoldable pub new : Pending
  new = record { calls = D.new; next_reply = 0 }

  -- `expect`, which makes the channel and inserts the call.
  unfoldable pub expect : ℕ → ℕ → Pending → Pending
  expect call_id node p = record {
    calls = D.insert p.calls call_id (record { node = node; reply = p.next_reply });
    next_reply = suc p.next_reply;
  }

  -- Also the drop of a `PendingGuard`.
  unfoldable pub remove : ℕ → Pending → Pending
  remove call_id p = record p { calls = D.remove p.calls call_id }

  -- `remove_if` with a test of the call's node, and the answer to what it took out.
  abbrev pub answer_if :
      (PendingCall → Bool)
      → ℕ
      → Result Bytes ClusterReplyError
      → Option PendingCall
      → Pending
      → Pending × List Answer
  answer_if test call_id result none p = (p, [])
  answer_if test call_id result (some call) p =
      if test call
      then (record p { calls = D.remove p.calls call_id }, (call.reply, result) ∷ [])
      else (p, [])

  abbrev pub went_to : ℕ → PendingCall → Bool
  went_to node call = call.node == node

  unfoldable pub complete : ℕ → ℕ → Result Bytes RemoteError → Pending → Pending × List Answer
  complete node call_id result p =
      answer_if (went_to node) call_id (map_err result) (D.get p.calls call_id) p

  -- One round of the loop of `fail_node`, and of that of `fail_all`.
  unfoldable pub fail_one : ℕ → ℕ → Pending → Pending × List Answer
  fail_one node call_id p =
      answer_if (went_to node) call_id (err disconnected) (D.get p.calls call_id) p

  unfoldable pub fail_any : ℕ → Pending → Pending × List Answer
  fail_any call_id p = answer_if (λ call. true) call_id (err disconnected) (D.get p.calls call_id) p

  unfoldable pub each :
      (ℕ → Pending → Pending × List Answer) → List ℕ → Pending → Pending × List Answer
  each round [] p = (p, [])
  each round (id ∷ ids) p =
      let (p', as') = round id p in let (p'', bs) = each round ids p' in (p'', as' ++ bs)

  abbrev is_to : ℕ → Option PendingCall → Bool
  is_to node none = false
  is_to node (some call) = call.node == node

  -- The calls to the node, in the order of the iteration.
  abbrev pub calls_to : ℕ → Pending → List ℕ → List ℕ
  calls_to node p [] = []
  calls_to node p (id ∷ ids) =
      let rest = calls_to node p ids in if is_to node (D.get p.calls id) then id ∷ rest else rest

  unfoldable pub fail_node : ℕ → Pending → Pending × List Answer
  unfolding each fail_one
  fail_node node p = each (fail_one node) (calls_to node p (D.keys p.calls)) p

  unfoldable pub fail_all : Pending → Pending × List Answer
  unfolding each fail_any
  fail_all p = each fail_any (D.keys p.calls) p
