-- ===== src/External/Models.antt =====
-- Concrete instances of the interfaces, which show that what they ask can be had.
use zestors.Base.{
  ℕ, suc, ◌<◌, ◌≡◌, refl, not, ◌&&◌, Option, none, some, List, [], ◌∷◌, ◌++◌, length, max, elem,
  ◌==◌, if◌then◌else◌, arith,
}
use zestors.External.Fifo.{Fifo}
use zestors.External.IndexSet.{IndexSet, is_nil}
use zestors.External.IndexMap.{IndexMap, is_some}
use zestors.External.StreamUnordered.{StreamUnordered}
use zestors.External.DelayQueue.{DelayQueue}

module _ {A : Type 0} where
  abbrev pub list_pop : List A → Option (A × List A)
  list_pop [] = none
  list_pop (a ∷ as') = some (a, as')

  pub list_pop-empty : (q : List A) → q ≡ [] → list_pop q ≡ none
  list_pop-empty [] h = refl
  list_pop-empty (a ∷ r) h = cc

  pub list_pop-cons :
      (q : List A) (a : A) (r : List A)
      → q ≡ a ∷ r
      → (q' : List A) × (list_pop q ≡ some (a, q')) × (q' ≡ r)
  list_pop-cons [] a r h = cc
  list_pop-cons (b ∷ s) a r h = (s, cc, cc)

-- A queue that is the list of what it holds.
abbrev pub list_fifo : (A : Type 0) → Fifo A
list_fifo A = record {
  Queue = List A;
  unbounded = [];
  push = λ q a. q ++ a ∷ [];
  pop = list_pop;
  len = length;
  contents = λ q. q;
  contents-unbounded = refl;
  contents-push = λ q a. refl;
  len-contents = λ q. refl;
  pop-empty = list_pop-empty;
  pop-cons = list_pop-cons;
}

abbrev without : ℕ → List ℕ → List ℕ
without n [] = []
without n (x ∷ xs) = let rest = without n xs in if n == x then rest else x ∷ rest

pub elem-without : (n m : ℕ) (s : List ℕ) → elem m (without n s) ≡ (not (n == m) && elem m s)
elem-without n m [] = ground arith
elem-without n m (x ∷ xs) = ground (arith, elem-without n m xs)

-- A set that is the list of its names.
abbrev pub list_set : IndexSet
list_set = record {
  Names = List ℕ;
  new = [];
  insert = λ s n. if elem n s then s else s ++ n ∷ [];
  swap_remove = λ s n. (without n s, elem n s);
  contains = λ s n. elem n s;
  is_empty = is_nil;
  to_list = λ s. s;
  to_list-new = refl;
  contains-to_list = λ s n. refl;
  is_empty-to_list = λ s. refl;
  to_list-insert = λ s n. refl;
  swap_remove-found = λ s n. refl;
  elem-swap_remove = λ s n m. elem-without n m s;
}

module _ {V : Type 0} where
  abbrev pub lookup : List (ℕ × V) → ℕ → Option V
  lookup [] k = none
  lookup ((j, v) ∷ m) k = let rest = lookup m k in if j == k then some v else rest

  abbrev pub write : List (ℕ × V) → ℕ → V → List (ℕ × V)
  write [] k v = (k, v) ∷ []
  write ((j, w) ∷ m) k v = let rest = write m k v in if j == k then (k, v) ∷ m else (j, w) ∷ rest

  abbrev pub firsts : List (ℕ × V) → List ℕ
  firsts [] = []
  firsts ((j, v) ∷ m) = j ∷ firsts m

  pub lookup-write :
      (m : List (ℕ × V)) (k : ℕ) (v : V) (j : ℕ)
      → lookup (write m k v) j ≡ (if k == j then some v else lookup m j)
  lookup-write [] k v j = ground arith
  lookup-write ((i, w) ∷ m) k v j = ground (arith, lookup-write m k v j)

  pub firsts-write :
      (m : List (ℕ × V)) (k : ℕ) (v : V)
      → firsts (write m k v) ≡ (if elem k (firsts m) then firsts m else firsts m ++ k ∷ [])
  firsts-write [] k v = refl
  firsts-write ((i, w) ∷ m) k v = ground (arith, firsts-write m k v)

  pub elem-firsts : (m : List (ℕ × V)) (k : ℕ) → elem k (firsts m) ≡ is_some (lookup m k)
  elem-firsts [] k = refl
  elem-firsts ((i, w) ∷ m) k = ground (arith, elem-firsts m k)

-- A map that is the list of its entries.
abbrev pub list_map : (V : Type 0) → IndexMap V
list_map V = record {
  Map = List (ℕ × V);
  new = [];
  insert = write;
  get = lookup;
  keys = firsts;
  get-new = λ k. refl;
  keys-new = refl;
  get-insert = lookup-write;
  keys-insert = firsts-write;
  elem-keys = elem-firsts;
}

module _ {A : Type 0} where
  -- A token above all that are in use.
  abbrev fresh : List (ℕ × A) → ℕ
  fresh [] = 0
  fresh ((t, a) ∷ s) = max (suc t) (fresh s)

  abbrev dropped : List (ℕ × A) → ℕ → List (ℕ × A)
  dropped [] t = []
  dropped ((u, a) ∷ s) t = let rest = dropped s t in if t == u then rest else (u, a) ∷ rest

  pub lookup-fresh : (s : List (ℕ × A)) (t : ℕ) → fresh s < suc t → lookup s t ≡ none
  lookup-fresh [] t h = refl
  lookup-fresh ((u, a) ∷ s) t h = ground (arith, lookup-fresh s t)

  pub none_at_fresh : (s : List (ℕ × A)) → lookup s (fresh s) ≡ none
  none_at_fresh s = lookup-fresh s (fresh s) (omega arith)

  pub lookup-dropped :
      (s : List (ℕ × A)) (t u : ℕ) → lookup (dropped s t) u ≡ (if t == u then none else lookup s u)
  lookup-dropped [] t u = ground arith
  lookup-dropped ((v, a) ∷ s) t u = ground (arith, lookup-dropped s t u)

-- Streams under their tokens, the last written first.
abbrev pub list_streams : (A : Type 0) → StreamUnordered A
list_streams A = record {
  Streams = List (ℕ × A);
  new = [];
  insert = λ s a. (fresh s, (fresh s, a) ∷ s);
  get = lookup;
  set = λ s t a. (t, a) ∷ s;
  take = λ s t. (lookup s t, dropped s t);
  get-new = λ t. refl;
  insert-fresh = λ s a. none_at_fresh s;
  get-insert = λ s a t. refl;
  get-set = λ s t a b u h. refl;
  take-get = λ s t. refl;
  get-take = lookup-dropped;
}

-- What is queued, under its keys.
abbrev pub list_delays : (A : Type 0) → DelayQueue A
list_delays A = record {
  Queue = List (ℕ × A);
  new = [];
  insert = λ q a delay. (fresh q, (fresh q, a) ∷ q);
  get = lookup;
  remove = dropped;
  get-new = λ k. refl;
  insert-fresh = λ q a delay. none_at_fresh q;
  get-insert = λ q a delay k. refl;
  get-remove = lookup-dropped;
}
