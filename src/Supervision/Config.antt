-- ===== src/Supervision/Config.antt =====
-- crates/supervision/src/childspec.rs: the settings of one child.
use zestors.Base.{ℕ, Bool, true, false, Option, none}
use zestors.Runtime.Status.{ExitStatus, normal}
use zestors.Supervision.Intensity.{RestartIntensity}

-- `RestartMode` of crates/actor/src/lib.rs.
pub data RestartMode : Type 0 where
  always on_error never : RestartMode

-- `RestartMode::should_restart`.
unfoldable pub should_restart : RestartMode → ExitStatus → Bool
should_restart always _ = true
should_restart never _ = false
should_restart on_error normal = false
should_restart on_error _ = true

pub record ChildConfig : Type 0 where
  pub restart_mode : RestartMode
  pub intensity : Option RestartIntensity
  pub abort_timeout : ℕ
  pub init_timeout : ℕ
  pub start_timeout : ℕ

-- `ChildConfig::default`, in milliseconds.
abbrev pub default_config : ChildConfig
default_config = record {
  restart_mode = always;
  intensity = none;
  abort_timeout = 5000;
  init_timeout = 5000;
  start_timeout = 5000;
}

-- `ChildSpec`: the name of its channel, and its settings. What its blueprint does is not in the model.
pub record ChildSpec : Type 0 where
  pub name : ℕ
  pub cfg : ChildConfig

-- `ChildDescription`.
pub record ChildDescription : Type 0 where
  pub name : ℕ
  pub cfg : ChildConfig

unfoldable pub with_mode : ChildSpec → RestartMode → ChildSpec
with_mode s m = record { name = s.name; cfg = record (s.cfg) { restart_mode = m } }

unfoldable pub with_abort_timeout : ChildSpec → ℕ → ChildSpec
with_abort_timeout s t = record { name = s.name; cfg = record (s.cfg) { abort_timeout = t } }

unfoldable pub with_init_timeout : ChildSpec → ℕ → ChildSpec
with_init_timeout s t = record { name = s.name; cfg = record (s.cfg) { init_timeout = t } }
