-- ===== src/Supervisor/Tests.antt =====
-- The properties of crates/supervisor at concrete values, on containers made of lists.
use zestors.Base.{ℕ, Option, none, some, [], ◌∷◌, arith}
use zestors.External.Models.{list_set, list_map, list_streams}
use zestors.Supervision.Config.{ChildSpec, default_config}
use zestors.Supervisor.Supervisee.{Supervisee, SuperviseeState, alive}
use zestors.Supervisor.Supervisee.Laws.{Runs}
use zestors.Supervisor.Crates.{Crates}
use zestors.Supervisor.Children.{SuperviseeMap}
use zestors.Supervisor.Children.Lookup.{IsWellFormed}

abbrev pub crates : Crates
crates = record {
  sets = list_set;
  entries = list_map (Option ℕ);
  streams = list_streams Supervisee;
}

abbrev pub spec_of : ℕ → ChildSpec
spec_of n = record { name = n; cfg = default_config }

abbrev pub child_in : ℕ → SuperviseeState → Supervisee
child_in n s = record { spec = spec_of n; state = s; restarter = none }

abbrev no_runs : Runs
no_runs = record { begun = 0; cancelled_early = 0; over = 0 }

-- A map of one child, which is alive.
abbrev pub one_child : SuperviseeMap crates
one_child = record { mapping = (1, some 0) ∷ []; supervisees = (0, child_in 1 alive) ∷ [] }

pub one_child-IsWellFormed : IsWellFormed crates one_child
one_child-IsWellFormed = record { holds = λ k t h. (child_in 1 alive, ground arith, ground arith) }
