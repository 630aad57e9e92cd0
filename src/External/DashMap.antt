-- ===== src/External/DashMap.antt =====
-- `dashmap::DashMap<K, V>` under the equality of its keys. `remove` and `remove_if` return what they took
-- out; here the caller reads it before.
use zestors.Base.{◌≡◌, Bool, true, false, ◌||◌, Option, none, some, List, [], ◌∷◌, if◌then◌else◌}
use zestors.Base.Maps.{is_some}

-- An equality test that decides equality.
pub record Equality (K : Type 0) : Type 0 where
  pub same : K → K → Bool
  pub same→≡ : (a b : K) → same a b ≡ true → a ≡ b
  pub same_refl : (a : K) → same a a ≡ true

module _ {K : Type 0} (E : Equality K) where
  abbrev pub among : K → List K → Bool
  among k [] = false
  among k (j ∷ js) = E.same j k || among k js

  abbrev pub kept : {V : Type 0} → Bool → Option V → Option V
  kept true o = o
  kept false o = none

  abbrev pub kept_by : {V : Type 0} → (K → V → Bool) → K → Option V → Option V
  kept_by p k none = none
  kept_by p k (some v) = kept (p k v) (some v)

  pub record DashMap (V : Type 0) : Type 1 where
    pub Map : Type 0
    pub new : Map
    pub insert : Map → K → V → Map
    pub get : Map → K → Option V
    pub remove : Map → K → Map
    pub retain : (K → V → Bool) → Map → Map
    -- The keys, in the order of an iteration.
    pub keys : Map → List K
    pub get-new : (k : K) → get new k ≡ none
    pub get-insert :
        (m : Map) (k : K) (v : V) (j : K)
        → get (insert m k v) j ≡ (if E.same k j then some v else get m j)
    pub get-remove :
        (m : Map) (k j : K) → get (remove m k) j ≡ (if E.same k j then none else get m j)
    pub get-retain :
        (p : K → V → Bool) (m : Map) (k : K) → get (retain p m) k ≡ kept_by p k (get m k)
    pub among-keys : (m : Map) (k : K) → among k (keys m) ≡ is_some (get m k)
