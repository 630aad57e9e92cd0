-- ===== src/Distr/Messaging/Dispatch/Sorted.antt =====
-- Sorting and searching ids.
use zestors.Base.{
  ℕ, zero, suc, ◌/◌, ◌≡◌, ◌≤◌, ◌<◌, refl, sym, ap, subst, ◌∙◌, inl, inr, Bool, false, ◌||◌, List,
  [], ◌∷◌, ◌++◌, ◌==◌, ltb, leb, length, length-append, elem, elem-append, All, Bool-cases, arith,
}
use zestors.Distr.Messaging.Dispatch.{
  insert_sorted, sort_unstable, split_at, at_middle, search, binary_search,
}

abbrev pub Sorted : List ℕ → Type 0
Sorted [] = Unit
Sorted (x ∷ xs) = All (λ y. x ≤ y) xs × Sorted xs

elem-insert_sorted :
    (id a : ℕ) (xs : List ℕ) → elem id (insert_sorted a xs) ≡ (a == id || elem id xs)
unfolding insert_sorted
elem-insert_sorted id a [] = refl
elem-insert_sorted id a (x ∷ xs) = ground (arith, elem-insert_sorted id a xs)

pub elem-sort_unstable : (id : ℕ) (xs : List ℕ) → elem id (sort_unstable xs) ≡ elem id xs
unfolding sort_unstable
elem-sort_unstable id [] = refl
elem-sort_unstable id (x ∷ xs) =
    elem-insert_sorted id x (sort_unstable xs) ∙ ap (λ b. x == id || b) (elem-sort_unstable id xs)

All-le : (a b : ℕ) (xs : List ℕ) → a ≤ b → All (λ y. b ≤ y) xs → All (λ y. a ≤ y) xs
All-le a b [] h k = tt
All-le a b (x ∷ xs) h k = (omega (arith, k.0), All-le a b xs h k.1)

All-insert_sorted :
    (b a : ℕ) (xs : List ℕ) → b ≤ a → All (λ y. b ≤ y) xs → All (λ y. b ≤ y) (insert_sorted a xs)
unfolding insert_sorted
All-insert_sorted b a [] h k = (h, tt)
All-insert_sorted b a (x ∷ xs) h k = elim (Bool-cases (leb a x)) [
  | inl le ↦ rw le (h, k)
  | inr gt ↦ rw gt (k.0, All-insert_sorted b a xs h k.1)
]

insert_sorted-Sorted : (a : ℕ) (xs : List ℕ) → Sorted xs → Sorted (insert_sorted a xs)
unfolding insert_sorted
insert_sorted-Sorted a [] h = (tt, tt)
insert_sorted-Sorted a (x ∷ xs) h = elim (Bool-cases (leb a x)) [
  | inl le ↦ let small : a ≤ x = ground arith in rw le ((small, All-le a x xs small h.0), h)
  | inr gt ↦ rw gt (All-insert_sorted x a xs (ground arith) h.0, insert_sorted-Sorted a xs h.1)
]

pub sort_unstable-Sorted : (xs : List ℕ) → Sorted (sort_unstable xs)
unfolding sort_unstable
sort_unstable-Sorted [] = tt
sort_unstable-Sorted (x ∷ xs) = insert_sorted-Sorted x (sort_unstable xs) (sort_unstable-Sorted xs)

split_at-append : (n : ℕ) (xs : List ℕ) → (split_at n xs).0 ++ (split_at n xs).1 ≡ xs
unfolding split_at
split_at-append zero xs = refl
split_at-append (suc n) [] = refl
split_at-append (suc n) (x ∷ xs) = ap (λ l. x ∷ l) (split_at-append n xs)

split_at-length : (n : ℕ) (xs : List ℕ) → n ≤ length xs → length (split_at n xs).0 ≡ n
unfolding split_at
split_at-length zero xs h = refl
split_at-length (suc n) [] h = absurd (omega arith)
split_at-length (suc n) (x ∷ xs) h = ap suc (split_at-length n xs (omega arith))

All-append-left : (y : ℕ) (l r : List ℕ) → All (λ z. y ≤ z) (l ++ r) → All (λ z. y ≤ z) l
All-append-left y [] r h = tt
All-append-left y (x ∷ l) r h = (h.0, All-append-left y l r h.1)

All-at : (y : ℕ) (l r : List ℕ) (x : ℕ) → All (λ z. y ≤ z) (l ++ x ∷ r) → y ≤ x
All-at y [] r x h = h.0
All-at y (z ∷ l) r x h = All-at y l r x h.1

-- Both sides of a place in a sorted list, and the id there.
Sorted-append :
    (l r : List ℕ) (x : ℕ)
    → Sorted (l ++ x ∷ r)
    → Sorted l × All (λ y. y ≤ x) l × All (λ y. x ≤ y) r × Sorted r
Sorted-append [] r x h = (tt, tt, h.0, h.1)
Sorted-append (y ∷ l) r x h =
    let (a, b, c, d) = Sorted-append l r x h.1 in
    ((All-append-left y l (x ∷ r) h.0, a), (All-at y l r x h.0, b), c, d)

not_above : (id x : ℕ) (xs : List ℕ) → All (λ y. x ≤ y) xs → id < x → elem id xs ≡ false
not_above id x [] h k = refl
not_above id x (y ∷ ys) h k = ground (arith, not_above id x ys h.1 k, h.0)

not_below : (id x : ℕ) (xs : List ℕ) → All (λ y. y ≤ x) xs → x < id → elem id xs ≡ false
not_below id x [] h k = refl
not_below id x (y ∷ ys) h k = ground (arith, not_below id x ys h.1 k, h.0)

middle-elem :
    (rest : List ℕ → Bool) (id : ℕ) (l r : List ℕ)
    → Sorted (l ++ r)
    → (length r ≡ 0 → length l ≡ 0)
    → ((xs : List ℕ) → Sorted xs → length xs < length (l ++ r) → rest xs ≡ elem id xs)
    → at_middle rest id l r ≡ elem id (l ++ r)
middle-elem rest id [] [] s h ih = refl
middle-elem rest id (y ∷ l) [] s h ih = absurd (omega (arith, h refl))
middle-elem rest id l (x ∷ r) s h ih =
    let (a, b, c, d) = Sorted-append l r x s in
    let e = elem-append id l (x ∷ r) in
    let n = length-append {0} l (x ∷ r) in
    elim (Bool-cases (x == id)) [
      | inl here ↦ rw here (sym (e ∙ ground arith))
      | inr other ↦ elim (Bool-cases (ltb x id)) [
        | inl below ↦
            let none' = not_below id x l b (ground arith) in
            rw (other, below) (ih r d (omega arith) ∙ sym (e ∙ ground arith))
        | inr above ↦
            let none' = not_above id x r c (ground arith) in
            rw (other, above) (ih l a (omega arith) ∙ sym (e ∙ ground arith))
      ]
    ]

search-elem :
    (fuel id : ℕ) (xs : List ℕ) → Sorted xs → length xs ≤ fuel → search fuel id xs ≡ elem id xs
unfolding search
search-elem zero id [] s h = refl
search-elem zero id (x ∷ xs) s h = absurd (omega arith)
search-elem (suc fuel) id xs s h =
    let n = length xs / 2 in
    let joined = split_at-append (length xs / 2) xs in
    let small = split_at-length (length xs / 2) xs (omega arith) in
    let sizes = length-append {0} (split_at (length xs / 2) xs).0 (split_at (length xs / 2) xs).1 in
    let same = ap length joined in
    middle-elem (search fuel id) id (split_at (length xs / 2) xs).0 (split_at (length xs / 2) xs).1
      (subst Sorted (sym joined) s) (λ e. omega arith)
      (λ ys t k. search-elem fuel id ys t (omega arith))
    ∙ ap (elem id) joined

pub binary_search-elem : (id : ℕ) (xs : List ℕ) → Sorted xs → binary_search id xs ≡ elem id xs
unfolding binary_search
binary_search-elem id xs s = search-elem (length xs) id xs s (omega arith)
