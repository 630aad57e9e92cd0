-- ===== src/Distr/Messaging/Dispatch/Claims.antt =====
-- Which registrations panic.
use zestors.Base.{
  ℕ, ◌≡◌, refl, sym, ap, ◌∙◌, inl, inr, Bool, true, false, not, ◌||◌, ◌&&◌, Option, none, some,
  List, [], ◌∷◌, ◌==◌, if◌then◌else◌, Bool-cases, Run, returns, panics, ◌>>=◌, arith,
}
use zestors.External.IndexMap.{IndexMap}
use zestors.Distr.Messaging.Dispatch.{
  Message, Handler, typed, builtin, Registered, Handlers, empty, claim_over, claim, insert,
  insert_op,
}

-- A registration of a type, as a message or as an operation.
pub data Registration : Type 0 where
  as_message : ℕ → Registration
  as_operation : ℕ → Registration

abbrev pub type_of : Registration → ℕ
type_of (as_message t) = t
type_of (as_operation t) = t

-- `M::Id` for each type.
module _ (X : IndexMap Registered) (Y : IndexMap ℕ) (id_of : ℕ → ℕ) where
  abbrev pub message : ℕ → Message
  message t = record { id = id_of t; type_id = t }

  abbrev pub register : Registration → Handlers X Y → Run (Handlers X Y)
  register (as_message t) h = insert X Y (message t) h
  register (as_operation t) h = insert_op X Y (message t) h

  unfoldable pub register_all : List Registration → Handlers X Y → Run (Handlers X Y)
  register_all [] h = returns h
  register_all (r ∷ rs) h = register r h >>= register_all rs

  abbrev pub is_panic : {A : Type 0} → Run A → Bool
  is_panic (returns a) = false
  is_panic panics = true

  -- Two types under one id.
  abbrev pub collide : ℕ → ℕ → Bool
  collide t u = id_of t == id_of u && not (t == u)

  abbrev pub collides : ℕ → List Registration → Bool
  collides t [] = false
  collides t (r ∷ rs) = collide t (type_of r) || collides t rs

  abbrev pub clashes : List Registration → Bool
  clashes [] = false
  clashes (r ∷ rs) = collides (type_of r) rs || clashes rs

  -- Another type has an id already.
  abbrev pub differs : Option Registered → ℕ → Bool
  differs none t = false
  differs (some taken) t = not (taken.type_id == t)

  abbrev pub taken_from : Handlers X Y → ℕ → Bool
  taken_from h t = differs (X.get h.by_id (id_of t)) t

  abbrev some_taken : Handlers X Y → List Registration → Bool
  some_taken h [] = false
  some_taken h (r ∷ rs) = taken_from h (type_of r) || some_taken h rs

  -- A registration that is let in takes its id for its type, and may list the type.
  pub record Takes (t : ℕ) (lists : ℕ → Bool) (h h' : Handlers X Y) : Type 0 where
    pub others : (u : ℕ) → taken_from h' u ≡ (collide t u || taken_from h u)
    pub types :
        (u : ℕ) → Y.get h'.by_type u ≡ (if lists u then some (id_of u) else Y.get h.by_type u)

  pub data Outcome (t : ℕ) (lists : ℕ → Bool) (h : Handlers X Y) : Run (Handlers X Y) → Type 0 where
    refused : taken_from h t ≡ true → Outcome t lists h panics
    let_in :
        (h' : Handlers X Y)
        → taken_from h t ≡ false
        → Takes t lists h h'
        → Outcome t lists h (returns h')

  abbrev pub lists_type : Registration → ℕ → Bool
  lists_type (as_message t) u = t == u
  lists_type (as_operation t) u = false

  same_type :
      (t u : ℕ) (o : Option Registered)
      → differs o t ≡ false
      → not (t == u) ≡ (not (t == u) || differs o u)
  same_type t u none f = ground arith
  same_type t u (some taken) f = ground arith

  put-Takes :
      (t : ℕ) (handler : Handler) (h h' : Handlers X Y)
      → taken_from h t ≡ false
      → h'.by_id ≡ X.insert h.by_id (id_of t) (record { handler = handler; type_id = t })
      → h'.by_type ≡ h.by_type
      → Takes t (λ u. false) h h'
  put-Takes t handler h h' f e l = record {
    types = λ u. ap (λ m. Y.get m u) l;
    others = λ u.
        let now =
          ap (λ m. X.get m (id_of u)) e
          ∙ X.get-insert h.by_id (id_of t) (record { handler = handler; type_id = t }) (id_of u) in
        elim (Bool-cases (id_of t == id_of u)) [
          | inl same ↦
              let ids : id_of t ≡ id_of u = ground arith in
              let f' : differs (X.get h.by_id (id_of u)) t ≡ false =
                ap (λ i. differs (X.get h.by_id i) t) (sym ids) ∙ f in
              ap (λ o. differs o u) now ∙ rw same (same_type t u (X.get h.by_id (id_of u)) f')
          | inr other ↦ ap (λ o. differs o u) now ∙ rw other refl
        ];
  }

  claim_over-Outcome :
      (t : ℕ) (handler : Handler) (o : Option Registered) (h : Handlers X Y)
      → X.get h.by_id (id_of t) ≡ o
      → Outcome t (λ u. false) h (claim_over X Y o (message t) handler h)
  claim_over-Outcome t handler none h e =
      let f : taken_from h t ≡ false = ap (λ o. differs o t) e in
      let_in _ f (put-Takes t handler h _ f refl refl)
  claim_over-Outcome t handler (some taken) h e = elim (Bool-cases (taken.type_id == t)) [
    | inl same ↦
        let f : taken_from h t ≡ false = ap (λ o. differs o t) e ∙ rw same refl in
        rw same (let_in _ f (put-Takes t handler h _ f refl refl))
    | inr other ↦ rw other (refused (ap (λ o. differs o t) e ∙ rw other refl))
  ]

  then_typed :
      (t : ℕ) (h : Handlers X Y) (r : Run (Handlers X Y))
      → Outcome t (λ u. false) h r
      → Outcome t
          (λ u. t == u)
          h
          (r >>= λ h'. returns (record h' { by_type = Y.insert h'.by_type t (id_of t) }))
  then_typed t h r (refused f) = refused f
  then_typed t h r (let_in h' f k) = let_in _ f (record {
    others = k.others;
    types = λ u. Y.get-insert h'.by_type t (id_of t) u ∙ elim (Bool-cases (t == u)) [
      | inl same ↦ let types : t ≡ u = ground arith in rw same (ap (λ v. some (id_of v)) types)
      | inr other ↦ rw other (k.types u)
    ];
  })

  pub register-Outcome :
      (r : Registration) (h : Handlers X Y) → Outcome (type_of r) (lists_type r) h (register r h)
  unfolding insert insert_op claim
  register-Outcome (as_message t) h =
      then_typed t h _ (claim_over-Outcome t (typed t) (X.get h.by_id (id_of t)) h refl)
  register-Outcome (as_operation t) h =
      claim_over-Outcome t (builtin t) (X.get h.by_id (id_of t)) h refl

  swap_middle : (a b c d : Bool) → (a || b || (c || d)) ≡ (a || c || (b || d))
  swap_middle true b c d = refl
  swap_middle false true true d = refl
  swap_middle false true false d = refl
  swap_middle false false true d = refl
  swap_middle false false false d = refl

  some_taken-after :
      (t : ℕ) (h h' : Handlers X Y) (lists : ℕ → Bool) (rs : List Registration)
      → Takes t lists h h'
      → some_taken h' rs ≡ (collides t rs || some_taken h rs)
  some_taken-after t h h' lists [] k = refl
  some_taken-after t h h' lists (r ∷ rs) k =
      rw (k.others (type_of r), some_taken-after t h h' lists rs k)
        (swap_middle (collide t (type_of r)) (taken_from h (type_of r)) (collides t rs)
          (some_taken h rs))

  after_register :
      (r : Registration) (rs : List Registration) (h : Handlers X Y) (o : Run (Handlers X Y))
      → Outcome (type_of r) (lists_type r) h o
      → ((h' : Handlers X Y) → is_panic (register_all rs h') ≡ (some_taken h' rs || clashes rs))
      → is_panic (o >>= register_all rs) ≡ (some_taken h (r ∷ rs) || clashes (r ∷ rs))
  after_register r rs h o (refused f) ih = rw f refl
  after_register r rs h o (let_in h' f k) ih =
      ih h'
      ∙ rw (some_taken-after (type_of r) h h' (lists_type r) rs k, f)
          (shuffle (collides (type_of r) rs) (some_taken h rs) (clashes rs))
    where
      shuffle : (a b c : Bool) → (a || b || c) ≡ (b || (a || c))
      shuffle true true c = refl
      shuffle true false c = refl
      shuffle false b c = ground arith

  register_all-taken :
      (rs : List Registration) (h : Handlers X Y)
      → is_panic (register_all rs h) ≡ (some_taken h rs || clashes rs)
  unfolding register_all
  register_all-taken [] h = refl
  register_all-taken (r ∷ rs) h =
      after_register r rs h (register r h) (register-Outcome r h) (register_all-taken rs)

  none_taken : (rs : List Registration) → some_taken (empty X Y) rs ≡ false
  unfolding empty
  none_taken [] = refl
  none_taken (r ∷ rs) = rw (X.get-new (id_of (type_of r)), none_taken rs) refl

  -- Registering types, as messages or as operations, panics exactly if two of them that differ have one id.
  pub register_all-panics :
      (rs : List Registration) → is_panic (register_all rs (empty X Y)) ≡ clashes rs
  register_all-panics rs = register_all-taken rs (empty X Y) ∙ rw (none_taken rs) refl
