-- ===== src/Distr/Cluster/Generation/Growth.antt =====
-- Generations grow from run to run.
use zestors.Base.{
  ℕ, ◌<◌, ◌≤◌, ◌≡◌, ◌⊎◌, inl, inr, subst, max, Bool, none, some, Result, ok, err, List, [], ◌∷◌,
  if◌then◌else◌, ltb, arith, Bool-cases, All,
}
use zestors.Distr.Cluster.Generation.{
  u64_max, pick, File, missing, holds, garbled, unreadable, IoError, read, read_store, next,
}

-- A call, in the process of the call before it or after a restart, which starts from 0 again.
pub record Call : Type 0 where
  pub restarted : Bool
  pub now : ℕ
  pub writes : Bool

-- The results of calls, one after the other, that keep a store.
unfoldable pub results : List Call → ℕ → File → List (Result ℕ IoError)
unfolding next
results [] last file = []
results (c ∷ cs) last file =
    let r = next c.writes c.now [] (if c.restarted then 0 else last) (some file) in
    r.result ∷ results cs r.last (elim r.store [ none ↦ file | some f ↦ f ])

-- Each generation is above the ones before it, until there is none above: then it is the largest.
abbrev pub Grows : ℕ → List (Result ℕ IoError) → Type 0
Grows low [] = Unit
Grows low (ok g ∷ rs) = ((low < g) ⊎ (g ≡ u64_max)) × Grows g rs
Grows low (err e ∷ rs) = Grows low rs

-- The number in a store, and 0 where there is none.
abbrev pub stored_in : File → ℕ
stored_in missing = 0
stored_in (holds n) = n
stored_in f = 0

abbrev pub InTime : Call → Type 0
InTime c = c.now ≤ u64_max

max_swap : (a b : ℕ) → max b a ≡ max a b
max_swap a b = omega arith

picked :
    (now low stored last : ℕ)
    → low ≤ stored
    → low ≤ u64_max
    → now ≤ u64_max
    → ((low < pick now (max last stored)) ⊎ (pick now (max last stored) ≡ u64_max))
      × (pick now (max last stored) ≤ u64_max)
unfolding pick
picked now low stored last h k t = (
  elim (Bool-cases (ltb stored u64_max)) [
    | inl room ↦ elim (Bool-cases (ltb last u64_max)) [
      | inl more ↦ inl (ground arith)
      | inr full ↦ inr (ground arith)
    ]
    | inr full ↦ inr (ground arith)
  ],
  omega arith,
)

-- The same, above `LAST`.
pub picked_last :
    (now last stored : ℕ)
    → last ≤ u64_max
    → now ≤ u64_max
    → ((last < pick now (max last stored)) ⊎ (pick now (max last stored) ≡ u64_max))
      × (pick now (max last stored) ≤ u64_max)
picked_last now last stored k t =
    subst (λ m. ((last < pick now m) ⊎ (pick now m ≡ u64_max)) × (pick now m ≤ u64_max))
      (max_swap last stored) (picked now last last stored (omega arith) k t)

-- Of the calls that succeed, each returns a generation above those before it and above the number in the
-- store, or, when the numbers are used up, the largest one; also when the process was restarted
-- between them and the clock went back, and when the writing of the store failed. The clock's times
-- and the number in the store are below 2 ^ 64.
pub results-Grows :
    (cs : List Call) (last : ℕ) (file : File)
    → All InTime cs
    → stored_in file ≤ u64_max
    → Grows (stored_in file) (results cs last file)
unfolding results next read_store read
results-Grows [] last file t b = tt
results-Grows (c ∷ cs) last garbled t b =
    results-Grows cs (if c.restarted then 0 else last) garbled t.1 b
results-Grows (c ∷ cs) last unreadable t b =
    results-Grows cs (if c.restarted then 0 else last) unreadable t.1 b
results-Grows (c ∷ cs) last missing t b =
    let last' = if c.restarted then 0 else last in
    let g = pick c.now (max last' 0) in
    let p = picked c.now 0 0 last' (omega arith) b t.0 in
    elim (Bool-cases c.writes) [
      | inl done ↦ rw done (p.0, results-Grows cs g (holds g) t.1 p.1)
      | inr lost ↦ rw lost (results-Grows cs g missing t.1 b)
    ]
results-Grows (c ∷ cs) last (holds n) t b =
    let last' = if c.restarted then 0 else last in
    let g = pick c.now (max last' n) in
    let p = picked c.now n n last' (omega arith) b t.0 in
    elim (Bool-cases c.writes) [
      | inl done ↦ rw done (p.0, results-Grows cs g (holds g) t.1 p.1)
      | inr lost ↦ rw lost (results-Grows cs g (holds n) t.1 b)
    ]
