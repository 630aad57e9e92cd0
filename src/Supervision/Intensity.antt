-- ===== src/Supervision/Intensity.antt =====
-- crates/supervision/src/strategy.rs, with `RestartLimiter` of crates/supervisor/src/strategy.rs: how
-- many restarts a sliding window of time may hold. An `Instant` and a `Duration` are numbers of
-- milliseconds; the clock's reading is an argument.
pub mod Window
use zestors.Base.{
  ℕ, suc, ◌-◌, ◌*◌, Bool, true, false, ◌&&◌, List, [], ◌∷◌, ◌++◌, length, ltb, leb, ◌==◌,
  if◌then◌else◌,
}

-- `u16::MAX`.
abbrev pub u16_max : ℕ
u16_max = 65535

pub record RestartIntensity : Type 0 where
  pub max_restarts : ℕ
  pub within : ℕ

abbrev pub five_minutes : ℕ
five_minutes = 5 * 60 * 1000

-- `RestartIntensity::default`.
abbrev pub default_intensity : RestartIntensity
default_intensity = record { max_restarts = 3; within = five_minutes }

-- `RestartIntensity::restarts`.
abbrev pub restarts : ℕ → RestartIntensity
restarts max = record { max_restarts = max; within = five_minutes }

-- `RestartIntensity::infinite`.
abbrev pub infinite : RestartIntensity
infinite = record { max_restarts = u16_max; within = 0 }

abbrev pub is_infinite : RestartIntensity → Bool
is_infinite i = i.max_restarts == u16_max && i.within == 0

-- The `while` loop that drops what has aged out from the front. `duration_since` stops at zero.
unfoldable pub drop_old : ℕ → ℕ → List ℕ → List ℕ
drop_old within now [] = []
drop_old within now (t ∷ ts) = if ltb within (now - t) then drop_old within now ts else t ∷ ts

unfoldable pub allow_restart : RestartIntensity → ℕ → List ℕ → List ℕ × Bool
unfolding drop_old
allow_restart i now history =
    if is_infinite i
    then (history, true)
    else (let kept = drop_old i.within now history in
        if leb i.max_restarts (length kept) then (kept, false) else (kept ++ now ∷ [], true))

pub record RestartLimiter : Type 0 where
  pub intensity : RestartIntensity
  pub restarts : List ℕ

-- `RestartLimiter::new`.
abbrev pub new_limiter : RestartIntensity → RestartLimiter
new_limiter i = record { intensity = i; restarts = [] }

unfoldable pub acquire_permit : ℕ → RestartLimiter → RestartLimiter × Bool
unfolding allow_restart
acquire_permit now l =
    let (history, granted) = allow_restart l.intensity now l.restarts in
    (record l { restarts = history }, granted)
