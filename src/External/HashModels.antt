-- ===== src/External/HashModels.antt =====
-- An instance of the hash map, which shows that what the interface asks can be had.
use zestors.Base.{
  ℕ, ◌≡◌, refl, Bool, true, ◌&&◌, Option, none, some, List, [], ◌∷◌, ◌==◌, ==_iff, ==_refl,
  if◌then◌else◌, arith, inl, inr, not, Bool-cases, ap,
}
use zestors.Base.Maps.{is_some}
use zestors.External.Papaya.{HashMap}
use zestors.External.DashMap.{Equality, DashMap, among, kept_by}

-- Names and numbers are compared as numbers.
abbrev pub numbers : Equality ℕ
numbers = record { same = λ a b. a == b; same→≡ = λ a b h. (==_iff a b).0 h; same_refl = ==_refl }

pub pair→≡ : (a b : ℕ × ℕ) → (a.0 == b.0 && a.1 == b.1) ≡ true → a ≡ b
pair→≡ a b h = ground arith

pub pair_refl : (a : ℕ × ℕ) → (a.0 == a.0 && a.1 == a.1) ≡ true
pair_refl a = ground arith

abbrev pub pairs : Equality (ℕ × ℕ)
pairs = record { same = λ a b. a.0 == b.0 && a.1 == b.1; same→≡ = pair→≡; same_refl = pair_refl }

-- The writes and removals, the latest first.
module _ {K V : Type 0} (E : Equality K) where
  abbrev pub lookup : List (K × Option V) → K → Option V
  lookup [] k = none
  lookup ((j, o) ∷ m) k = let rest = lookup m k in if E.same j k then o else rest

  abbrev pub firsts : List (K × Option V) → List K
  firsts [] = []
  firsts ((j, o) ∷ m) = j ∷ firsts m

  abbrev pub retained : (K → V → Bool) → List (K × Option V) → List (K × Option V)
  retained p [] = []
  retained p ((j, o) ∷ m) = (j, kept_by E p j o) ∷ retained p m

  abbrev pub live : List (K × Option V) → List K → List K
  live m [] = []
  live m (j ∷ js) = let rest = live m js in if is_some (lookup m j) then j ∷ rest else rest

  lookup-at : (m : List (K × Option V)) (j k : K) → E.same j k ≡ true → lookup m j ≡ lookup m k
  lookup-at m j k h = ap (lookup m) (E.same→≡ j k h)

  pub lookup-retained :
      (p : K → V → Bool) (m : List (K × Option V)) (k : K)
      → lookup (retained p m) k ≡ kept_by E p k (lookup m k)
  lookup-retained p [] k = refl
  lookup-retained p ((j, o) ∷ m) k = elim (Bool-cases (E.same j k)) [
    | inl here ↦ rw here (ap (λ i. kept_by E p i o) (E.same→≡ j k here))
    | inr other ↦ rw other (lookup-retained p m k)
  ]

  among-live :
      (m : List (K × Option V)) (js : List K) (k : K)
      → among E k (live m js) ≡ (among E k js && is_some (lookup m k))
  among-live m [] k = refl
  among-live m (j ∷ js) k = elim (Bool-cases (E.same j k)) [
    | inl here ↦ ground (arith, among-live m js k, lookup-at m j k here)
    | inr other ↦ ground (arith, among-live m js k)
  ]

  among-firsts :
      (m : List (K × Option V)) (k : K) → is_some (lookup m k) ≡ true → among E k (firsts m) ≡ true
  among-firsts [] k h = h
  among-firsts ((j, o) ∷ m) k h = ground (arith, among-firsts m k)

  pub among-keys_of :
      (m : List (K × Option V)) (k : K) → among E k (live m (firsts m)) ≡ is_some (lookup m k)
  among-keys_of m k = ground (arith, among-live m (firsts m) k, among-firsts m k)

abbrev pub hash_map : {K : Type 0} → (E : Equality K) → (V : Type 0) → DashMap E V
hash_map {K} E V = record {
  Map = List (K × Option V);
  new = [];
  insert = λ m k v. (k, some v) ∷ m;
  get = lookup E;
  remove = λ m k. (k, none) ∷ m;
  retain = retained E;
  keys = λ m. live E m (firsts E m);
  get-new = λ k. refl;
  get-insert = λ m k v j. refl;
  get-remove = λ m k j. refl;
  get-retain = lookup-retained E;
  among-keys = among-keys_of E;
}

-- The same for the concurrent map of names.
pub get-try :
    {V : Type 0} (m : List (ℕ × Option V)) (k : ℕ) (v : V) (j : ℕ)
    → lookup numbers (if is_some (lookup numbers m k) then m else (k, some v) ∷ m) j ≡ (
        if is_some (lookup numbers m k)
        then lookup numbers m j
        else if k == j
        then some v
        else lookup numbers m j)
get-try m k v j = ground arith

abbrev pub papaya_map : (V : Type 0) → HashMap V
papaya_map V = record {
  Map = List (ℕ × Option V);
  new = [];
  get = lookup numbers;
  try_insert = λ m k v. (
    if is_some (lookup numbers m k) then m else (k, some v) ∷ m,
    not (is_some (lookup numbers m k)),
  );
  remove = λ m k. (k, none) ∷ m;
  get-new = λ k. refl;
  try_insert-free = λ m k v. refl;
  get-try_insert = get-try;
  get-remove = λ m k j. refl;
}
