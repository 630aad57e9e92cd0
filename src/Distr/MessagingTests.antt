-- ===== src/Distr/MessagingTests.antt =====
-- Calls that are answered and lost, and a message that is sent.
use zestors.Base.{◌≡◌, refl, true, false, some, ok, err, List, [], ◌∷◌, elem, arith}
use zestors.External.DashMap.{DashMap}
use zestors.External.HashModels.{numbers, hash_map}
use zestors.Distr.Cluster.State.{MemberList}
use zestors.Distr.Messaging.Pending.{
  PendingCall, Pending, new, expect, complete, fail_node, disconnected, fail_one,
}
use zestors.Distr.Messaging.Pending.Once.{
  Action, expects, completes, fails_one, Once, channels, run, run-Once,
}
use zestors.Distr.Messaging.Pending.Lost.{FailsNode, fail_node-FailsNode}
use zestors.Distr.Messaging.Send.{Outgoing, Target, taken, Messaging, try_cast_remote}
use zestors.Distr.Messaging.Send.Outcome.{Fresh}
use zestors.Distr.Messaging.Send.Casts.{Outcome, try_cast_remote-Outcome}

abbrev calls_of : DashMap numbers PendingCall
calls_of = hash_map numbers PendingCall

-- A reply from another node, one from the node that the call went to, and the loss of that node.
abbrev history : List Action
history = expects 1 7 ∷ completes 8 1 (ok []) ∷ completes 7 1 (ok (5 ∷ [])) ∷ fails_one 7 1 ∷ []

answered : (run calls_of history (new calls_of) []).1 ≡ (0, ok (5 ∷ [])) ∷ []
unfolding run new expect complete fail_one
answered = refl

abbrev answered_call : PendingCall
answered_call = record { node = 7; reply = 0 }

run-Once_example :
    Once (run calls_of history (new calls_of) []).1
    × (calls_of.get (run calls_of history (new calls_of) []).0.calls 1 ≡ some answered_call
        → elem 0 (channels (run calls_of history (new calls_of) []).1) ≡ false)
run-Once_example = run-Once calls_of history 1 answered_call

abbrev two_calls : Pending calls_of
two_calls = record {
  calls =
      (1, some (record { node = 7; reply = 0 })) ∷ (2, some (record { node = 8; reply = 1 })) ∷ [];
  next_reply = 2;
}

one_lost : (fail_node calls_of 7 two_calls).1 ≡ (0, err disconnected) ∷ []
unfolding fail_node
one_lost = refl

fail_node-FailsNode_example : FailsNode calls_of 7 two_calls (fail_node calls_of 7 two_calls)
fail_node-FailsNode_example = fail_node-FailsNode calls_of 7 two_calls

-- A call of the actor "a" of node 7 with one request.
abbrev target : Target
target = record { node = 7; name = 97 ∷ [] }

abbrev question : Outgoing
question = record { id = 300; replies = true; requests = 1; encoded = λ ids. some ids }

abbrev quiet : Messaging calls_of
quiet = record { pending = record { calls = []; next_reply = 0 }; next_call = 5 }

abbrev cluster : MemberList
cluster = record {
  local = record { name = 0; addr = 0; generation = 1 };
  members = (7, record { name = 7; addr = 1; generation = 1 }) ∷ [];
  unreachable = [];
}

quiet-Fresh : Fresh calls_of quiet
quiet-Fresh id h = refl

try_cast_remote-Outcome_example :
    Outcome calls_of target question quiet
      (try_cast_remote calls_of taken true cluster target question quiet)
try_cast_remote-Outcome_example =
    try_cast_remote-Outcome calls_of target question quiet quiet-Fresh (omega arith) taken true
      cluster
