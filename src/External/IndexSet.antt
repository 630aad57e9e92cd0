-- ===== src/External/IndexSet.antt =====
-- `indexmap::IndexSet<Name>`, as crates/supervisor uses it.
use zestors.Base.{
  ℕ, ◌≡◌, Bool, true, false, not, ◌&&◌, List, [], ◌∷◌, ◌++◌, elem, ◌==◌, if◌then◌else◌,
}

abbrev pub is_nil {ℓ} : {A : Type ℓ} → List A → Bool
is_nil [] = true
is_nil (x ∷ xs) = false

pub record IndexSet : Type 1 where
  pub Names : Type 0
  pub new : Names
  pub insert : Names → ℕ → Names
  pub swap_remove : Names → ℕ → Names × Bool
  pub contains : Names → ℕ → Bool
  pub is_empty : Names → Bool
  -- The order of iteration, also that of `drain(..)`.
  pub to_list : Names → List ℕ
  pub to_list-new : to_list new ≡ []
  pub contains-to_list : (s : Names) (n : ℕ) → contains s n ≡ elem n (to_list s)
  pub is_empty-to_list : (s : Names) → is_empty s ≡ is_nil (to_list s)
  -- A new name goes to the end.
  pub to_list-insert :
      (s : Names) (n : ℕ)
      → to_list (insert s n) ≡ (if elem n (to_list s) then to_list s else to_list s ++ n ∷ [])
  -- What is removed was there, and the others stay, in some order.
  pub swap_remove-found : (s : Names) (n : ℕ) → (swap_remove s n).1 ≡ elem n (to_list s)
  pub elem-swap_remove :
      (s : Names) (n m : ℕ)
      → elem m (to_list (swap_remove s n).0) ≡ (not (n == m) && elem m (to_list s))
