-- ===== src/Base/Outcome.antt =====
-- Results of code: a `Result`, a computation that may panic, and `ControlFlow<()>`.
use mathlib.Core.Path.{◌≡◌, refl}
use mathlib.Core.Logic.{◌⊎◌, inl, inr}
use mathlib.Core.Option.{Option, none, some}

pub data Result {ℓ κ} (A : Type ℓ) (E : Type κ) : Type (ℓ ⊔ κ) where
  ok : A → Result A E
  err : E → Result A E

-- `panics` is a Rust panic (`expect`, `unwrap`, `unreachable!`, `panic!`): nothing after it runs.
pub data Run {ℓ} (A : Type ℓ) : Type ℓ where
  returns : A → Run A
  panics : Run A

infixl 5 ◌>>=◌
abbrev pub ◌>>=◌ {ℓ κ} : {A : Type ℓ} {B : Type κ} → Run A → (A → Run B) → Run B
returns a >>= f = f a
panics >>= f = panics

-- `Option::expect` and `unwrap`.
abbrev pub expect {ℓ} : {A : Type ℓ} → Option A → Run A
expect none = panics
expect (some a) = returns a

-- `std::ops::ControlFlow<()>`.
pub data Flow : Type 0 where
  continue : Flow
  break : Flow

pub >>=-eq-returns {ℓ κ} :
    {A : Type ℓ} {B : Type κ} (m : Run A) (f : A → Run B) {b : B}
    → (m >>= f) ≡ returns b
    → (a : A) × (m ≡ returns a) × (f a ≡ returns b)
>>=-eq-returns (returns a) f h = (a, refl, h)
>>=-eq-returns panics f h = cc

pub Result-cases {ℓ κ} :
    {A : Type ℓ} {E : Type κ} (r : Result A E) → ((a : A) × (r ≡ ok a)) ⊎ ((e : E) × (r ≡ err e))
Result-cases (ok a) = inl (a, refl)
Result-cases (err e) = inr (e, refl)

pub Run-cases {ℓ} : {A : Type ℓ} (m : Run A) → ((a : A) × (m ≡ returns a)) ⊎ (m ≡ panics)
Run-cases (returns a) = inl (a, refl)
Run-cases panics = inr refl
