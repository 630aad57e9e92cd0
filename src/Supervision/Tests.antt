-- ===== src/Supervision/Tests.antt =====
-- The properties of the restart limiter at concrete times.
use zestors.Base.{ℕ, ◌≡◌, refl, List, [], ◌∷◌, arith}
use zestors.Supervision.Intensity.{default_intensity, new_limiter}
use zestors.Supervision.Intensity.Window.{Monotone, grants, counted_grants, grants-counted_grants}

abbrev attempts : List ℕ
attempts = 10 ∷ 20 ∷ 20 ∷ 30 ∷ 400_000 ∷ []

attempts-Monotone : Monotone 0 attempts
attempts-Monotone = (omega arith, (omega arith, (omega arith, (omega arith, (omega arith, tt)))))

grants-counted_grants_example :
    grants attempts (new_limiter default_intensity) []
    ≡ counted_grants attempts default_intensity []
grants-counted_grants_example =
    grants-counted_grants default_intensity attempts refl attempts-Monotone
