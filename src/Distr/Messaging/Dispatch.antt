-- ===== src/Distr/Messaging/Dispatch.antt =====
-- crates/distr/src/messaging/dispatch.rs: the messages that a node accepts. Ids and types are numbers.
pub mod Sorted
pub mod Accepts
pub mod Claims
use zestors.Base.{
  ℕ, zero, suc, ◌+◌, ◌-◌, ◌/◌, Bool, true, false, not, ◌&&◌, ◌||◌, Option, none, some, List, [],
  ◌∷◌, ◌++◌, ◌==◌, ltb, leb, length, if◌then◌else◌, Run, returns, panics, ◌>>=◌,
}
use zestors.External.IndexMap.{IndexMap}

-- A `RemoteMessage` type, by its `TypeId`, with its `M::Id`.
pub record Message : Type 0 where
  pub id : ℕ
  pub type_id : ℕ

-- A handler for the messages of a type, or for the operations of a type.
pub data Handler : Type 0 where
  typed : ℕ → Handler
  builtin : ℕ → Handler

pub record Registered : Type 0 where
  pub handler : Handler
  pub type_id : ℕ

-- `<[T]>::sort_unstable` and `<[T]>::binary_search(..).is_ok()` on numbers.
unfoldable pub insert_sorted : ℕ → List ℕ → List ℕ
insert_sorted a [] = a ∷ []
insert_sorted a (x ∷ xs) = let rest = insert_sorted a xs in if leb a x then a ∷ x ∷ xs else x ∷ rest

unfoldable pub sort_unstable : List ℕ → List ℕ
unfolding insert_sorted
sort_unstable [] = []
sort_unstable (x ∷ xs) = insert_sorted x (sort_unstable xs)

unfoldable pub split_at : ℕ → List ℕ → List ℕ × List ℕ
split_at zero xs = ([], xs)
split_at (suc n) [] = ([], [])
split_at (suc n) (x ∷ xs) = let (l, r) = split_at n xs in (x ∷ l, r)

-- What is at the middle is compared, and what is before or after it is searched.
abbrev pub at_middle : (List ℕ → Bool) → ℕ → List ℕ → List ℕ → Bool
at_middle rest id l [] = false
at_middle rest id l (x ∷ r) = if x == id then true else rest (if ltb x id then r else l)

unfoldable pub search : ℕ → ℕ → List ℕ → Bool
unfolding split_at
search zero id xs = false
search (suc fuel) id xs =
    let (l, r) = split_at (length xs / 2) xs in at_middle (search fuel id) id l r

-- A round for each number is more than enough, since each halves what is searched.
unfoldable pub binary_search : ℕ → List ℕ → Bool
unfolding search
binary_search id xs = search (length xs) id xs

module _ (X : IndexMap Registered) (Y : IndexMap ℕ) where
  pub record Handlers : Type 0 where
    pub by_id : X.Map
    pub by_type : Y.Map

  unfoldable pub empty : Handlers
  empty = record { by_id = X.new; by_type = Y.new }

  abbrev put : Message → Handler → Handlers → Run Handlers
  put m handler h = returns (record h {
    by_id = X.insert h.by_id m.id (record { handler = handler; type_id = m.type_id });
  })

  abbrev pub claim_over : Option Registered → Message → Handler → Handlers → Run Handlers
  claim_over none m handler h = put m handler h
  claim_over (some taken) m handler h =
      if taken.type_id == m.type_id then put m handler h else panics

  unfoldable pub claim : Message → Handler → Handlers → Run Handlers
  claim m handler h = claim_over (X.get h.by_id m.id) m handler h

  unfoldable pub insert : Message → Handlers → Run Handlers
  unfolding claim
  insert m h = claim m (typed m.type_id) h >>= λ h'.
      returns (record h' { by_type = Y.insert h'.by_type m.type_id m.id })

  unfoldable pub insert_op : Message → Handlers → Run Handlers
  unfolding claim
  insert_op m h = claim m (builtin m.type_id) h

  abbrev pub get_handler : Option Registered → Option Handler
  get_handler none = none
  get_handler (some registered) = some registered.handler

  unfoldable pub get : Handlers → ℕ → Option Handler
  get h id = get_handler (X.get h.by_id id)

  abbrev pub with_id : Option ℕ → List ℕ → List ℕ
  with_id none ids = ids
  with_id (some id) ids = id ∷ ids

  abbrev pub ids_of : Handlers → List ℕ → List ℕ
  ids_of h [] = []
  ids_of h (t ∷ ts) = with_id (Y.get h.by_type t) (ids_of h ts)

  unfoldable pub registered_ids : Handlers → List ℕ → List ℕ
  unfolding sort_unstable
  registered_ids h members = sort_unstable (ids_of h members)

  abbrev pub all_found : List ℕ → List ℕ → Bool
  all_found accepted [] = true
  all_found accepted (id ∷ ids) = binary_search id accepted && all_found accepted ids

  unfoldable pub accepts_ids : Handlers → List ℕ → List ℕ → Bool
  unfolding registered_ids
  accepts_ids h members ids = all_found (registered_ids h members) ids
