-- ===== src/External/Papaya.antt =====
-- `papaya::HashMap<Name, V>`. `try_insert` says whether it inserted.
use zestors.Base.{ℕ, ◌≡◌, Bool, not, Option, none, some, ◌==◌, if◌then◌else◌}
use zestors.Base.Maps.{is_some}

pub record HashMap (V : Type 0) : Type 1 where
  pub Map : Type 0
  pub new : Map
  pub get : Map → ℕ → Option V
  pub try_insert : Map → ℕ → V → Map × Bool
  pub remove : Map → ℕ → Map
  pub get-new : (k : ℕ) → get new k ≡ none
  pub try_insert-free : (m : Map) (k : ℕ) (v : V) → (try_insert m k v).1 ≡ not (is_some (get m k))
  pub get-try_insert :
      (m : Map) (k : ℕ) (v : V) (j : ℕ)
      → get (try_insert m k v).0 j
        ≡ (if is_some (get m k) then get m j else if k == j then some v else get m j)
  pub get-remove : (m : Map) (k j : ℕ) → get (remove m k) j ≡ (if k == j then none else get m j)
