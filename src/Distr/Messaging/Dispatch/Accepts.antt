-- ===== src/Distr/Messaging/Dispatch/Accepts.antt =====
-- Which messages a node says that an actor accepts.
use zestors.Base.{
  ℕ, ◌≡◌, refl, sym, ap, ◌∙◌, inl, inr, Bool, true, false, ◌||◌, ◌&&◌, none, some, List, [], ◌∷◌,
  ◌==◌, elem, if◌then◌else◌, Bool-cases, Run, returns, ◌>>=◌,
}
use zestors.External.IndexMap.{IndexMap}
use zestors.Distr.Messaging.Dispatch.{
  Registered, Handlers, empty, ids_of, sort_unstable, registered_ids, all_found, accepts_ids,
}
use zestors.Distr.Messaging.Dispatch.Sorted.{
  elem-sort_unstable, sort_unstable-Sorted, binary_search-elem,
}
use zestors.Distr.Messaging.Dispatch.Claims.{
  Registration, type_of, register, register_all, Outcome, refused, let_in, lists_type,
  register-Outcome,
}

module _ (X : IndexMap Registered) (Y : IndexMap ℕ) (id_of : ℕ → ℕ) where
  -- A type was registered as a message.
  abbrev pub listed : List Registration → ℕ → Bool
  listed [] u = false
  listed (r ∷ rs) u = lists_type X Y id_of r u || listed rs u

  -- One of the types an actor takes is listed, and has the id.
  abbrev pub takes_id : List Registration → List ℕ → ℕ → Bool
  takes_id rs [] id = false
  takes_id rs (t ∷ ts) id = (listed rs t && id_of t == id) || takes_id rs ts id

  abbrev pub takes_all : List Registration → List ℕ → List ℕ → Bool
  takes_all rs members [] = true
  takes_all rs members (id ∷ ids) = takes_id rs members id && takes_all rs members ids

  after_register :
      (r : Registration) (rs : List Registration) (h h' : Handlers X Y) (o : Run (Handlers X Y))
      → Outcome X Y id_of (type_of r) (lists_type X Y id_of r) h o
      → ((h1 : Handlers X Y)
          → register_all X Y id_of rs h1 ≡ returns h'
          → (u : ℕ)
          → Y.get h'.by_type u ≡ (if listed rs u then some (id_of u) else Y.get h1.by_type u))
      → (o >>= register_all X Y id_of rs) ≡ returns h'
      → (u : ℕ)
      → Y.get h'.by_type u ≡ (if listed (r ∷ rs) u then some (id_of u) else Y.get h.by_type u)
  after_register r rs h h' o (refused f) ih e u = cc
  after_register r rs h h' o (let_in h1 f k) ih e u =
      ih h1 e u ∙ rw (k.types u) (either (lists_type X Y id_of r u) (listed rs u))
    where
      either :
          (a b : Bool)
          → (if b then some (id_of u) else (if a then some (id_of u) else Y.get h.by_type u))
            ≡ (if a || b then some (id_of u) else Y.get h.by_type u)
      either true true = refl
      either true false = refl
      either false b = refl

  register_all-types :
      (rs : List Registration) (h h' : Handlers X Y)
      → register_all X Y id_of rs h ≡ returns h'
      → (u : ℕ) → Y.get h'.by_type u ≡ (if listed rs u then some (id_of u) else Y.get h.by_type u)
  unfolding register_all
  register_all-types [] h h' e u = let same : h ≡ h' = cc in ap (λ g. Y.get g.by_type u) (sym same)
  register_all-types (r ∷ rs) h h' e u =
      after_register r rs h h' (register X Y id_of r h) (register-Outcome X Y id_of r h)
        (λ h1 e1 v. register_all-types rs h1 h' e1 v) e u

  module _ (rs : List Registration) (h : Handlers X Y)
      (e : register_all X Y id_of rs (empty X Y) ≡ returns h) where
    ids_of-elem : (ts : List ℕ) (id : ℕ) → elem id (ids_of X Y h ts) ≡ takes_id rs ts id
    unfolding empty
    ids_of-elem [] id = refl
    ids_of-elem (t ∷ ts) id =
        let now = register_all-types rs (empty X Y) h e t in
        elim (Bool-cases (listed rs t)) [
          | inl yes' ↦
              let found : Y.get h.by_type t ≡ some (id_of t) = now ∙ rw yes' refl in
              rw (found, yes') (ap (λ b. id_of t == id || b) (ids_of-elem ts id))
          | inr no' ↦
              let missing : Y.get h.by_type t ≡ none = now ∙ rw no' (Y.get-new t) in
              rw (missing, no') (ids_of-elem ts id)
        ]

    all_found-takes :
        (ids members : List ℕ)
        → all_found X Y (registered_ids X Y h members) ids ≡ takes_all rs members ids
    unfolding registered_ids
    all_found-takes [] members = refl
    all_found-takes (id ∷ ids) members =
        let one =
          binary_search-elem id (sort_unstable (ids_of X Y h members))
            (sort_unstable-Sorted (ids_of X Y h members))
          ∙ elem-sort_unstable id (ids_of X Y h members)
          ∙ ids_of-elem members id in
        rw (one, all_found-takes ids members) refl

    -- Of a node whose registrations did not panic, an actor accepts all of the ids exactly if each is that of a type
    -- that the actor takes and that was registered as a message.
    pub accepts_ids-takes_all :
        (members ids : List ℕ) → accepts_ids X Y h members ids ≡ takes_all rs members ids
    unfolding accepts_ids
    accepts_ids-takes_all members ids = all_found-takes ids members
