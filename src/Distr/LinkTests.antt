-- ===== src/Distr/LinkTests.antt =====
-- Two nodes that dial each other, a peer that is lost and found, and a stream.
use zestors.Base.{ℕ, ◌≡◌, ◌≤◌, ◌*◌, refl, true, false, some, List, [], ◌∷◌, arith}
use zestors.External.DashMap.{DashMap}
use zestors.External.HashModels.{numbers, hash_map}
use zestors.Distr.Links.{unreachable, reachable}
use zestors.Distr.Links.Connections.{Registered, Connections}
use zestors.Distr.Links.Agreement.{Keeps, Dialed, in_order, agreement}
use zestors.Distr.Links.Health.{LinkTimings, healthy, Attempt, attempts, failed}
use zestors.Distr.Links.Health.Reports.{Reported, attempts-healthy}
use zestors.Distr.Links.Streams.{read_stream, write_stream}
use zestors.Distr.Links.Streams.RoundTrip.{read_stream-write_stream}

abbrev map_of : DashMap numbers Registered
map_of = hash_map numbers Registered

-- Node 3 and node 5, before they know each other.
abbrev at_node : ℕ → Connections map_of
at_node n = record { local = n; conns = []; closed = [] }

abbrev dialed_by : ℕ → ℕ → Registered
dialed_by conn dialer = record { conn = conn; generation = 1; dialer = dialer }

at_three : Dialed map_of (at_node 3) 5 (dialed_by 0 3) (dialed_by 1 5)
at_three = record {
  crossing = record {
    apart = omega arith;
    open_first = refl;
    open_second = refl;
    generation = refl;
    sides = omega arith;
  };
  vacant = refl;
  by_us = refl;
  by_them = refl;
}

at_five : Dialed map_of (at_node 5) 3 (dialed_by 8 5) (dialed_by 9 3)
at_five = record {
  crossing = record {
    apart = omega arith;
    open_first = refl;
    open_second = refl;
    generation = refl;
    sides = omega arith;
  };
  vacant = refl;
  by_us = refl;
  by_them = refl;
}

-- The connection that node 3 dialed is kept by both.
agreement_example :
    Keeps map_of (in_order map_of true 5 (dialed_by 0 3) (dialed_by 1 5) (at_node 3)) 5 0 1
    × Keeps map_of (in_order map_of false 3 (dialed_by 8 5) (dialed_by 9 3) (at_node 5)) 3 9 8
agreement_example =
    agreement map_of true false (at_node 3) (at_node 5) (dialed_by 0 3) (dialed_by 1 5)
      (dialed_by 9 3) (dialed_by 8 5) at_three at_five

abbrev timings : LinkTimings
timings = record { reconnect_backoff_min = 4; reconnect_backoff_max = 40 }

abbrev even : ℕ → ℕ
even b = b

abbrev breaks : ℕ → Attempt
breaks t = record { now = t; at_failure = t; connects = false; jitter = even }

abbrev works : ℕ → Attempt
works t = record { now = t; at_failure = t; connects = true; jitter = even }

-- The attempt at time 1 is dropped, and the fourth failure is the third that is tried.
abbrev tried : List Attempt
tried = breaks 0 ∷ breaks 1 ∷ breaks 10 ∷ breaks 100 ∷ works 200 ∷ []

tried_reports : (attempts timings 7 tried healthy).1 ≡ unreachable 7 ∷ reachable 7 ∷ []
unfolding attempts healthy failed
tried_reports = refl

attempts-healthy_example : Reported timings 7 tried healthy 0
attempts-healthy_example = attempts-healthy timings 7 tried

even_bounds : (b : ℕ) → (3 * b ≤ 4 * even b) × (4 * even b ≤ 5 * b)
even_bounds b = (omega arith, omega arith)

abbrev payloads : List (List ℕ)
payloads = (1 ∷ 2 ∷ []) ∷ [] ∷ (3 ∷ []) ∷ []

read_stream-write_stream_example :
    read_stream 4 (write_stream 1 payloads) ≡ some (1, (payloads, true))
read_stream-write_stream_example =
    read_stream-write_stream 1 payloads (omega arith, (omega arith, (omega arith, tt)))
