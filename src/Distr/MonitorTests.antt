-- ===== src/Distr/MonitorTests.antt =====
-- Monitors that other nodes ask for.
use zestors.Base.{ℕ, ◌≡◌, refl, false, some, [], ◌∷◌, ◌==◌, elem}
use zestors.External.DashMap.{DashMap}
use zestors.External.HashModels.{pairs, hash_map}
use zestors.Distr.Messaging.Monitors.{
  asked, waiting, Node, first_state, new, begin, cancel, drop_node, asks, begins, Reach, start,
  later,
}
use zestors.Distr.Messaging.Monitors.Waiting.{Fresh}
use zestors.Distr.Messaging.Monitors.CalledOff.{Cancels, drop_node-Cancels}
use zestors.Distr.Messaging.Monitors.Early.{called_off_early}

abbrev entries : DashMap pairs ℕ
entries = hash_map pairs ℕ

-- Node 7 and node 8 each monitor an actor under the id 1.
abbrev two_waiting : Node entries
two_waiting = record {
  monitors = (begin entries (7, 1) (begin entries (8, 1) (new entries)).0).0;
  tasks =
      record { key = (7, 1); stage = waiting 1 } ∷ record { key = (8, 1); stage = waiting 0 } ∷ [];
}

two_waiting-Reach : Reach entries two_waiting
unfolding first_state new begin
two_waiting-Reach =
    later (later (later (later start (asks (8, 1))) (begins [] [] (8, 1) refl)) (asks (7, 1)))
      (begins [] _ (7, 1) refl)

two_waiting-Fresh : Fresh entries two_waiting-Reach
unfolding two_waiting-Reach first_state
two_waiting-Fresh = ((tt, refl), refl)

drop_node-Cancels_example :
    Cancels entries
      (λ k. k.0 == 8)
      two_waiting.monitors
      (drop_node entries 8 two_waiting.monitors)
      two_waiting.tasks
drop_node-Cancels_example = drop_node-Cancels entries two_waiting-Reach two_waiting-Fresh 8

-- Another monitor of node 7 is asked for.
abbrev third_asked :
    Reach entries
      (record two_waiting { tasks = record { key = (7, 2); stage = asked } ∷ two_waiting.tasks })
third_asked = later two_waiting-Reach (asks (7, 2))

called_off_early_example :
    let m = cancel entries (7, 2) two_waiting.monitors in
    (m ≡ two_waiting.monitors)
    × (elem (begin entries (7, 2) m).1 (begin entries (7, 2) m).0.cancelled ≡ false)
    × (entries.get (begin entries (7, 2) m).0.live (7, 2) ≡ some (begin entries (7, 2) m).1)
called_off_early_example =
    called_off_early entries third_asked [] two_waiting.tasks (7, 2) (two_waiting-Fresh, refl) refl
