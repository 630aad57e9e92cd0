-- ===== src/Distr/DispatchTests.antt =====
-- Registrations, and what an actor accepts.
use zestors.Base.{ℕ, ◌==◌, if◌then◌else◌, ◌≡◌, refl, true, List, [], ◌∷◌, returns}
use zestors.External.Models.{list_map}
use zestors.Distr.Messaging.Dispatch.{
  Registered, Handlers, typed, builtin, empty, insert, insert_op, claim, accepts_ids, binary_search,
  search, split_at, sort_unstable, insert_sorted,
}
use zestors.Distr.Messaging.Dispatch.Claims.{
  Registration, as_message, as_operation, register_all, register_all-panics, is_panic, clashes,
}
use zestors.Distr.Messaging.Dispatch.Accepts.{takes_all, accepts_ids-takes_all}

finds : binary_search 7 (sort_unstable (9 ∷ 7 ∷ 3 ∷ 8 ∷ [])) ≡ true
unfolding binary_search search split_at sort_unstable insert_sorted
finds = refl

-- The types 1 and 2 have the id 5, and type 3 has the id 6.
abbrev id_of : ℕ → ℕ
id_of t = if t == 3 then 6 else 5

register_all-panics_example :
    is_panic (list_map Registered) (list_map ℕ) id_of (
      register_all
        (list_map Registered)
        (list_map ℕ)
        id_of
        (as_operation 3 ∷ as_message 1 ∷ as_message 1 ∷ as_message 2 ∷ [])
        (empty (list_map Registered) (list_map ℕ)))
    ≡ clashes
        (list_map Registered)
        (list_map ℕ)
        id_of
        (as_operation 3 ∷ as_message 1 ∷ as_message 1 ∷ as_message 2 ∷ [])
register_all-panics_example =
    register_all-panics (list_map Registered) (list_map ℕ) id_of
      (as_operation 3 ∷ as_message 1 ∷ as_message 1 ∷ as_message 2 ∷ [])

abbrev registrations : List Registration
registrations = as_operation 3 ∷ as_message 1 ∷ []

abbrev registered : Handlers (list_map Registered) (list_map ℕ)
registered = record {
  by_id =
      (6, record { handler = builtin 3; type_id = 3 })
      ∷ (5, record { handler = typed 1; type_id = 1 })
      ∷ [];
  by_type = (1, 5) ∷ [];
}

runs :
    register_all
      (list_map Registered)
      (list_map ℕ)
      id_of
      registrations
      (empty (list_map Registered) (list_map ℕ))
    ≡ returns registered
unfolding register_all insert insert_op claim empty
runs = refl

accepts_ids-takes_all_example :
    accepts_ids (list_map Registered) (list_map ℕ) registered (1 ∷ 3 ∷ []) (5 ∷ 6 ∷ [])
    ≡ takes_all (list_map Registered) (list_map ℕ) id_of registrations (1 ∷ 3 ∷ []) (5 ∷ 6 ∷ [])
accepts_ids-takes_all_example =
    accepts_ids-takes_all (list_map Registered) (list_map ℕ) id_of registrations registered runs
      (1 ∷ 3 ∷ []) (5 ∷ 6 ∷ [])
