-- ===== src/Runtime/RegistryTests.antt =====
-- An actor that is created, and one whose address is upgraded too late.
use zestors.Base.{ℕ, ◌≡◌, ◌<◌, refl, false, none, some, returns, [], ◌∷◌, arith}
use zestors.External.Papaya.{HashMap}
use zestors.External.HashModels.{papaya_map}
use zestors.Runtime.Registry.{Process, new, create, drop}
use zestors.Runtime.Registry.Counted.{IsCounted, creates, start, later, Reach-drop}
use zestors.Runtime.Registry.Window.{window, window_deregisters}

abbrev names : HashMap ℕ
names = papaya_map ℕ

abbrev created : Process names
created = (create names 4 (new names)).0

Reach-drop_example :
    IsCounted names created
    × ((c : ℕ)
        → c < created.made
        → 0 < (created.channels c).strong
        → (q : Process names) × (drop names c created ≡ returns q))
Reach-drop_example = Reach-drop names (later start (creates 4))

-- An actor that runs, and that only its inbox refers to.
abbrev detached : Process names
detached = record {
  made = 1;
  channels = λ c. record { name = 4; strong = 1; dead = false };
  registry = (4, some 0) ∷ [];
}

detached-IsCounted : IsCounted names detached
detached-IsCounted = record {
  leads = λ n c g. (ground arith, ground arith, omega arith);
  found = λ c a s. ground arith;
}

window_deregisters_example :
    (q : Process names) × (window names 0 detached ≡ returns q)
    × ((q.channels 1).strong ≡ 1)
    × ((q.channels 1).name ≡ 4)
    × (names.get q.registry 4 ≡ none)
window_deregisters_example =
    window_deregisters names detached 0 detached-IsCounted (omega arith) refl refl
