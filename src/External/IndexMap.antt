-- ===== src/External/IndexMap.antt =====
-- `indexmap::IndexMap<K, V>`, as crates/supervisor and crates/distr use it.
use zestors.Base.{
  ℕ, ◌≡◌, Bool, true, false, Option, none, some, List, [], ◌∷◌, ◌++◌, elem, ◌==◌, if◌then◌else◌,
}

abbrev pub is_some {ℓ} : {A : Type ℓ} → Option A → Bool
is_some none = false
is_some (some a) = true

-- A write through `get_mut` is an `insert` under a key that is there, which keeps its place.
pub record IndexMap (V : Type 0) : Type 1 where
  pub Map : Type 0
  pub new : Map
  pub insert : Map → ℕ → V → Map
  pub get : Map → ℕ → Option V
  -- The order of iteration.
  pub keys : Map → List ℕ
  pub get-new : (k : ℕ) → get new k ≡ none
  pub keys-new : keys new ≡ []
  pub get-insert :
      (m : Map) (k : ℕ) (v : V) (j : ℕ)
      → get (insert m k v) j ≡ (if k == j then some v else get m j)
  pub keys-insert :
      (m : Map) (k : ℕ) (v : V)
      → keys (insert m k v) ≡ (if elem k (keys m) then keys m else keys m ++ k ∷ [])
  pub elem-keys : (m : Map) (k : ℕ) → elem k (keys m) ≡ is_some (get m k)
