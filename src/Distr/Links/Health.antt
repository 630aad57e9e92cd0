-- ===== src/Distr/Links/Health.antt =====
-- crates/distr/src/link/lane.rs: how reaching one peer is going, for all the lanes to it.
pub mod Reports
use zestors.Base.{
  ℕ, zero, suc, ◌+◌, ◌-◌, ◌*◌, ◌^◌, min, Bool, true, false, not, ◌&&◌, ◌||◌, Option, none, some,
  List, [], ◌∷◌, ◌++◌, ltb, leb, if◌then◌else◌,
}
use zestors.Distr.Links.{PeerEvent, unreachable, reachable}

abbrev pub unreachable_after : ℕ
unreachable_after = 3

abbrev pub u32_max : ℕ
u32_max = 4294967295

pub record LinkTimings : Type 0 where
  pub reconnect_backoff_min : ℕ
  pub reconnect_backoff_max : ℕ

-- The longest `Duration`, where multiplication ends.
abbrev pub duration_max : ℕ
duration_max = 18446744073709551615999999999

pub record Health : Type 0 where
  pub failures : ℕ
  pub retry_at : Option ℕ
  pub reported_unreachable : Bool

unfoldable pub healthy : Health
healthy = record { failures = 0; retry_at = none; reported_unreachable = false }

abbrev later_than : ℕ → Option ℕ → Bool
later_than now none = false
later_than now (some at) = ltb now at

unfoldable pub backing_off : ℕ → Health → Bool
backing_off now h = later_than now h.retry_at

unfoldable pub succeeded : Health → Health × Bool
succeeded h =
    (record { failures = 0; retry_at = none; reported_unreachable = false }, h.reported_unreachable)

-- The pause before the jitter.
unfoldable pub backoff : LinkTimings → ℕ → ℕ
backoff timings failures =
    min (min (timings.reconnect_backoff_min * 2 ^ min (failures - 1) 16) duration_max)
      timings.reconnect_backoff_max

-- `jitter` is the multiplication by a random number between 0.75 and 1.25.
module _ (timings : LinkTimings) (jitter : ℕ → ℕ) where
  unfoldable pub failed : ℕ → Health → Health × ℕ × Bool
  unfolding backoff
  failed now h =
      let failures = min (h.failures + 1) u32_max in
      let pause = jitter (backoff timings failures) in
      let newly = leb unreachable_after failures && not h.reported_unreachable in
      (
        record {
          failures = failures;
          retry_at = some (now + pause);
          reported_unreachable = h.reported_unreachable || newly;
        },
        pause,
        newly,
      )

-- What a lane does with one message: the times at which it looks at the clock, and whether connecting
-- works if it is tried.
pub record Attempt : Type 0 where
  pub now : ℕ
  pub at_failure : ℕ
  pub connects : Bool
  pub jitter : ℕ → ℕ

module _ (timings : LinkTimings) (node : ℕ) where
  abbrev pub after_success : Health × Bool → Health × List PeerEvent
  after_success (h, reported) = (h, if reported then reachable node ∷ [] else [])

  abbrev pub after_failure : Health × ℕ × Bool → Health × List PeerEvent
  after_failure (h, pause, newly) = (h, if newly then unreachable node ∷ [] else [])

  -- The part of the loop of `lane` that is about the health of its peer.
  unfoldable pub attempt : Attempt → Health → Health × List PeerEvent
  unfolding backing_off succeeded failed
  attempt a h =
      if backing_off a.now h
      then (h, [])
      else if a.connects
      then after_success (succeeded h)
      else after_failure (failed timings a.jitter a.at_failure h)

  -- The attempts of all lanes to the peer, one after the other.
  unfoldable pub attempts : List Attempt → Health → Health × List PeerEvent
  unfolding attempt
  attempts [] h = (h, [])
  attempts (a ∷ as') h =
      let (h', es) = attempt a h in let (h'', fs) = attempts as' h' in (h'', es ++ fs)
