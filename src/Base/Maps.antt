-- ===== src/Base/Maps.antt =====
-- `std::collections::HashMap` and `HashSet` under names: the list of what they hold, in some order.
use Prim.Native.Nat.{ℕ}
use mathlib.Core.Path.{◌≡◌, refl, subst}
use mathlib.Core.Logic.{inl, inr}
use mathlib.Core.Bool.{Bool, true, false, not, ◌&&◌, ◌||◌}
use mathlib.Core.Option.{Option, none, some}
use mathlib.Core.List.{List, [], ◌∷◌}
use native.Mathlib.Omega.{arith}
use zestors.Base.Tests.{◌==◌, if◌then◌else◌, ==_iff, Bool-cases}
use zestors.Base.Lists.{elem}

abbrev pub is_some {ℓ} : {A : Type ℓ} → Option A → Bool
is_some none = false
is_some (some a) = true

module _ {ℓ} {V : Type ℓ} where
  unfoldable pub get : ℕ → List (ℕ × V) → Option V
  get k [] = none
  get k ((j, v) ∷ m) = if j == k then some v else get k m

  unfoldable pub insert : ℕ → V → List (ℕ × V) → List (ℕ × V)
  insert k v [] = (k, v) ∷ []
  insert k v ((j, w) ∷ m) = if j == k then (k, v) ∷ m else (j, w) ∷ insert k v m

  unfoldable pub remove : ℕ → List (ℕ × V) → List (ℕ × V)
  remove k [] = []
  remove k ((j, v) ∷ m) = let rest = remove k m in if j == k then rest else (j, v) ∷ rest

  unfoldable pub values : List (ℕ × V) → List V
  values [] = []
  values ((k, v) ∷ m) = v ∷ values m

  pub keys : List (ℕ × V) → List ℕ
  keys [] = []
  keys ((k, v) ∷ m) = k ∷ keys m

  pub get-insert :
      (m : List (ℕ × V)) (k : ℕ) (v : V) (j : ℕ)
      → get j (insert k v m) ≡ (if k == j then some v else get j m)
  unfolding get insert
  get-insert [] k v j = refl
  get-insert ((i, w) ∷ m) k v j = ground (arith, get-insert m k v j)

  pub get-remove :
      (m : List (ℕ × V)) (k j : ℕ) → get j (remove k m) ≡ (if k == j then none else get j m)
  unfolding get remove
  get-remove [] k j = ground arith
  get-remove ((i, w) ∷ m) k j = ground (arith, get-remove m k j)

  pub elem-keys : (m : List (ℕ × V)) (k : ℕ) → elem k (keys m) ≡ is_some (get k m)
  unfolding get keys
  elem-keys [] k = refl
  elem-keys ((i, w) ∷ m) k = ground (arith, elem-keys m k)

  -- Every entry satisfies a predicate on its key and its value.
  unfoldable pub Entries {κ} : (ℕ → V → Type κ) → List (ℕ × V) → Type κ
  Entries P [] = Unit
  Entries P ((k, v) ∷ m) = P k v × Entries P m

module _ {ℓ κ} {V : Type ℓ} (P : ℕ → V → Type κ) where
  pub Entries-empty : Entries P []
  unfolding Entries
  Entries-empty = tt

  Entries-if :
      (b : Bool) (m n : List (ℕ × V)) → Entries P m → Entries P n → Entries P (if b then m else n)
  Entries-if true m n x y = x
  Entries-if false m n x y = y

  pub Entries-insert :
      (m : List (ℕ × V)) (k : ℕ) (v : V) → P k v → Entries P m → Entries P (insert k v m)
  unfolding Entries insert
  Entries-insert [] k v h e = (h, tt)
  Entries-insert ((j, w) ∷ m) k v h e =
      Entries-if (j == k) ((k, v) ∷ m) ((j, w) ∷ insert k v m) (h, e.1)
        (e.0, Entries-insert m k v h e.1)

  pub Entries-remove : (m : List (ℕ × V)) (k : ℕ) → Entries P m → Entries P (remove k m)
  unfolding Entries remove
  Entries-remove [] k e = tt
  Entries-remove ((j, w) ∷ m) k e =
      let rest = Entries-remove m k e.1 in
      Entries-if (j == k) (remove k m) ((j, w) ∷ remove k m) rest (e.0, rest)

  pub Entries-get : (m : List (ℕ × V)) (k : ℕ) (v : V) → Entries P m → get k m ≡ some v → P k v
  unfolding Entries get
  Entries-get [] k v e h = cc
  Entries-get ((j, w) ∷ m) k v e h = elim (Bool-cases (j == k)) [
    | inl here ↦
        let at : j ≡ k = (==_iff j k).0 here in
        let held : w ≡ v = ground arith in subst (λ x. P k x) held (subst (λ x. P x w) at e.0)
    | inr other ↦ Entries-get m k v e.1 (ground arith)
  ]

-- A set of names.
unfoldable pub include : ℕ → List ℕ → List ℕ
include n s = if elem n s then s else n ∷ s

unfoldable pub without : ℕ → List ℕ → List ℕ
without n [] = []
without n (x ∷ xs) = let rest = without n xs in if n == x then rest else x ∷ rest

pub elem-include : (n m : ℕ) (s : List ℕ) → elem m (include n s) ≡ (n == m || elem m s)
unfolding include
elem-include n m s = ground arith

pub elem-without : (n m : ℕ) (s : List ℕ) → elem m (without n s) ≡ (not (n == m) && elem m s)
unfolding without
elem-without n m [] = ground arith
elem-without n m (x ∷ xs) = ground (arith, elem-without n m xs)

pub ruleset maps = (arith, get-insert, get-remove, elem-include, elem-without)
