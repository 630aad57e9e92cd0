-- ===== src/Base/Reverse.antt =====
-- Reversing a list by appending.
use mathlib.Core.Path.{◌≡◌, refl, sym}
use mathlib.Core.List.{List, [], ◌∷◌, ◌++◌, append_assoc, append-nil}

module _ {ℓ} {A : Type ℓ} where
  abbrev pub reversed : List A → List A
  reversed [] = []
  reversed (x ∷ xs) = reversed xs ++ x ∷ []

  pub reversed-append : (xs ys : List A) → reversed (xs ++ ys) ≡ reversed ys ++ reversed xs
  reversed-append [] ys = sym (append-nil (reversed ys))
  reversed-append (x ∷ xs) ys =
      rw (reversed-append xs ys) (append_assoc (reversed ys) (reversed xs) (x ∷ []))

  pub reversed-reversed : (xs : List A) → reversed (reversed xs) ≡ xs
  reversed-reversed [] = refl
  reversed-reversed (x ∷ xs) =
      rw (reversed-append (reversed xs) (x ∷ []), reversed-reversed xs) refl
