-- ===== src/Distr/Messaging/Send/Outcome.antt =====
-- What is left in the table of calls when a message was sent, and when it was not.
use zestors.Base.{
  ℕ, zero, suc, ◌+◌, ◌<◌, ◌≤◌, ◌^◌, ◌≡◌, refl, sym, ◌∙◌, subst, inl, inr, true, false, Option, none,
  some, List, [], ◌∷◌, ◌++◌, length, if◌then◌else◌, elem, elem-append, length-append, append-nil,
  Bool-cases, arith,
}
use zestors.External.DashMap.{DashMap}
use zestors.External.HashModels.{numbers}
use zestors.Distr.Messaging.Pending.{PendingCall, expect, remove}
use zestors.Distr.Messaging.Send.{Messaging, export, export_all, forget_all, give_up}

module _ (D : DashMap numbers PendingCall) where
  abbrev pub call_at : Messaging D → ℕ → Option PendingCall
  call_at m id = D.get m.pending.calls id

  -- No id from the counter on is waited for.
  abbrev pub Fresh : Messaging D → Type 0
  Fresh m = (id : ℕ) → m.next_call ≤ id → call_at m id ≡ none

  -- A call waits for that node.
  abbrev pub WaitsFor : ℕ → Option PendingCall → Type 0
  WaitsFor node none = ⊥
  WaitsFor node (some c) = c.node ≡ node

  -- From one state to another, just those ids, which were free, have come to wait for the node.
  pub record Adds (node : ℕ) (ids : List ℕ) (m m' : Messaging D) : Type 0 where
    pub added : (id : ℕ) → elem id ids ≡ true → WaitsFor node (call_at m' id)
    pub kept : (id : ℕ) → elem id ids ≡ false → call_at m' id ≡ call_at m id
    pub were_free : (id : ℕ) → elem id ids ≡ true → m.next_call ≤ id
    pub counted : m'.next_call ≡ m.next_call + length ids

  pub stays : (node : ℕ) (m : Messaging D) → Adds node [] m m
  stays node m = record {
    added = λ id e. cc;
    kept = λ id e. refl;
    were_free = λ id e. cc;
    counted = omega arith;
  }

  pub waits_at : (node : ℕ) (o p : Option PendingCall) → o ≡ p → WaitsFor node p → WaitsFor node o
  waits_at node o p e w = subst (WaitsFor node) (sym e) w

  pub Adds-append :
      (node : ℕ) (xs ys : List ℕ) (l m n : Messaging D)
      → Adds node xs l m
      → Adds node ys m n
      → Adds node (xs ++ ys) l n
  Adds-append node xs ys l m n f g = record {
    added = λ id e. elim (Bool-cases (elem id ys)) [
      | inl later ↦ g.added id later
      | inr first ↦
          waits_at node (call_at n id) (call_at m id) (g.kept id first)
            (f.added id (ground (arith, elem-append id xs ys)))
    ];
    kept = λ id e.
        g.kept id (ground (arith, elem-append id xs ys))
        ∙ f.kept id (ground (arith, elem-append id xs ys));
    were_free = λ id e. elim (Bool-cases (elem id xs)) [
      | inl first ↦ f.were_free id first
      | inr later ↦
          let c = f.counted in
          let b = g.were_free id (ground (arith, elem-append id xs ys)) in omega arith
    ];
    counted = omega (arith, f.counted, g.counted, length-append {0} xs ys);
  }

  -- One id, with room on the counter.
  pub export-Adds :
      (node : ℕ) (m : Messaging D)
      → m.next_call + 1 < 2 ^ 64
      → Adds node (m.next_call ∷ []) m (export D node m)
  unfolding export expect
  export-Adds node m h =
      let call : PendingCall = record { node = node; reply = m.pending.next_reply } in
      record {
        added = λ id e.
            waits_at node (D.get (D.insert m.pending.calls m.next_call call) id) (some call)
              (ground (arith, D.get-insert m.pending.calls m.next_call call id)) refl;
        kept = λ id e. ground (arith, D.get-insert m.pending.calls m.next_call call id);
        were_free = λ id e. ground arith;
        counted = omega arith;
      }

  pub export_all-Adds :
      (node n : ℕ) (m : Messaging D)
      → m.next_call + n < 2 ^ 64
      → Adds node (export_all D node n m).1 m (export_all D node n m).0
        × (length (export_all D node n m).1 ≡ n)
  unfolding export_all
  export_all-Adds node zero m h = (stays node m, refl)
  export_all-Adds node (suc n) m h =
      let m1 = export D node m in
      let one = export-Adds node m (omega arith) in
      let (rest, len) = export_all-Adds node n m1 (omega (arith, one.counted)) in
      (
        Adds-append node (m.next_call ∷ []) (export_all D node n m1).1 m m1
            (export_all D node n m1).0 one rest,
        omega arith,
      )

  pub forget_all-at :
      (ids : List ℕ) (m : Messaging D) (id : ℕ)
      → call_at (forget_all D ids m) id ≡ (if elem id ids then none else call_at m id)
  unfolding forget_all remove
  forget_all-at [] m id = refl
  forget_all-at (i ∷ ids) m id = ground (
    arith,
    forget_all-at ids (record m { pending = remove D i m.pending }) id,
    D.get-remove m.pending.calls i id,
  )

  -- Nothing has changed for any call.
  abbrev pub Unchanged : Messaging D → Messaging D → Type 0
  Unchanged m m' = (id : ℕ) → call_at m' id ≡ call_at m id

  -- To forget what was added is to change nothing.
  pub forgotten :
      (node : ℕ) (ids : List ℕ) (m m' : Messaging D)
      → Fresh m
      → Adds node ids m m'
      → Unchanged m (forget_all D ids m')
  forgotten node ids m m' free a id = elim (Bool-cases (elem id ids)) [
    | inl mine ↦ rw (forget_all-at ids m' id, mine) (sym (free id (a.were_free id mine)))
    | inr other ↦ rw (forget_all-at ids m' id, other) (a.kept id other)
  ]

  abbrev pub call_list : Option ℕ → List ℕ
  call_list none = []
  call_list (some id) = id ∷ []

  pub give_up-at :
      (ids : List ℕ) (call : Option ℕ) (m : Messaging D) (id : ℕ)
      → call_at (forget_all D ids (give_up D call m)) id
        ≡ call_at (forget_all D (ids ++ call_list call) m) id
  unfolding remove
  give_up-at ids none m id = rw (append-nil ids) refl
  give_up-at ids (some i) m id = ground (
    arith,
    forget_all-at ids (give_up D (some i) m) id,
    forget_all-at (ids ++ i ∷ []) m id,
    elem-append id ids (i ∷ []),
    D.get-remove m.pending.calls i id,
  )
