-- ===== src/Distr/Cluster/Generation/Threads.antt =====
-- Threads that ask for a generation at once: each step of the loop of `next` is a step of one of them.
use zestors.Base.{
  ℕ, ◌<◌, ◌≤◌, ◌≡◌, ◌≢◌, ◌⊎◌, inl, inr, max, List, [], ◌∷◌, All, arith, if◌then◌else◌, ◌==◌,
}
use zestors.Distr.Cluster.Generation.{u64_max, pick}
use zestors.Distr.Cluster.Generation.Growth.{picked_last}

-- Before the first load of `LAST`, with what the store holds; before a compare-and-exchange; and after it.
pub data Thread : Type 0 where
  loading : ℕ → Thread
  trying : ℕ → ℕ → Thread
  got : ℕ → Thread

-- `LAST`, the threads, and the generations that were handed out, the latest first.
pub record Process : Type 0 where
  pub last : ℕ
  pub thread : ℕ → Thread
  pub handed : List ℕ

abbrev pub become : (ℕ → Thread) → ℕ → Thread → ℕ → Thread
become f i t j = if i == j then t else f j

abbrev pub exchange : ℕ → ℕ → ℕ → Process → Process
exchange i stored now p =
    let g = pick now (max p.last stored) in
    record { last = g; thread = become p.thread i (got g); handed = g ∷ p.handed }

pub data Step (p : Process) : Process → Type 0 where
  load :
      (i stored : ℕ)
      → p.thread i ≡ loading stored
      → Step p (record p { thread = become p.thread i (trying stored p.last) })
  -- The clock is read before each attempt.
  succeed :
      (i stored last now : ℕ)
      → p.thread i ≡ trying stored last
      → last ≡ p.last
      → now ≤ u64_max
      → Step p (exchange i stored now p)
  fail :
      (i stored last : ℕ)
      → p.thread i ≡ trying stored last
      → last ≢ p.last
      → Step p (record p { thread = become p.thread i (trying stored p.last) })

pub data Reach (p : Process) : Process → Type 0 where
  here : Reach p p
  later : {q r : Process} → Reach p q → Step q r → Reach p r

-- From the latest to the first, each is above all before it, or is the largest.
abbrev pub Descends : List ℕ → Type 0
Descends [] = Unit
Descends (g ∷ gs) = All (λ h. (h < g) ⊎ (g ≡ u64_max)) gs × Descends gs

record Ordered (p : Process) : Type 0 where
  below : p.last ≤ u64_max
  covered : All (λ h. h ≤ p.last) p.handed
  descends : Descends p.handed

raise :
    (gs : List ℕ) (last g : ℕ)
    → All (λ h. h ≤ last) gs
    → (last < g) ⊎ (g ≡ u64_max)
    → All (λ h. (h < g) ⊎ (g ≡ u64_max)) gs
raise [] last g a r = tt
raise (h ∷ gs) last g a (inl r) = (inl (omega arith), raise gs last g a.1 (inl r))
raise (h ∷ gs) last g a (inr r) = (inr r, raise gs last g a.1 (inr r))

cover : (gs : List ℕ) (last g : ℕ) → last ≤ g → All (λ h. h ≤ last) gs → All (λ h. h ≤ g) gs
cover [] last g r a = tt
cover (h ∷ gs) last g r a = (omega arith, cover gs last g r a.1)

pick-le : (now last stored : ℕ) → last ≤ u64_max → last ≤ pick now (max last stored)
unfolding pick
pick-le now last stored h = omega arith

Step-Ordered : {p q : Process} → Step p q → Ordered p → Ordered q
Step-Ordered (load i stored e) o = record {
  below = o.below;
  covered = o.covered;
  descends = o.descends;
}
Step-Ordered (fail i stored last e n) o = record {
  below = o.below;
  covered = o.covered;
  descends = o.descends;
}
Step-Ordered {p} (succeed i stored last now e n t) o =
    let g = pick now (max p.last stored) in
    let r = picked_last now p.last stored o.below t in
    record {
      below = r.1;
      covered =
          (omega arith, cover p.handed p.last g (pick-le now p.last stored o.below) o.covered);
      descends = (raise p.handed p.last g o.covered r.0, o.descends);
    }

Reach-Ordered : {p q : Process} → Ordered p → Reach p q → Ordered q
Reach-Ordered o here = o
Reach-Ordered o (later r s) = Step-Ordered s (Reach-Ordered o r)

abbrev pub first_state : (ℕ → Thread) → Process
first_state thread = record { last = 0; thread = thread; handed = [] }

-- However the steps of threads that ask for generations are interleaved, each generation that a process
-- hands out is above all that it handed out before, or, when the numbers are used up, is the largest.
-- The clock's times are below 2 ^ 64.
pub Reach-Descends :
    (thread : ℕ → Thread) {q : Process} → Reach (first_state thread) q → Descends q.handed
Reach-Descends thread r =
    (Reach-Ordered (record { below = omega arith; covered = tt; descends = tt }) r).descends
