-- ===== src/Distr/Messaging/Monitors/Kept.antt =====
-- monitors.rs: the table and its tokens.
use zestors.Base.{
  ℕ, ◌≡◌, ◌<◌, ◌⊎◌, refl, sym, ap, subst, ◌∙◌, inl, inr, Bool, true, false, not, ◌&&◌, ◌||◌, Option,
  none, some, List, [], ◌∷◌, ◌==◌, elem, elem-append, Bool-cases, arith,
}
use zestors.External.DashMap.{DashMap, among, kept_by}
use zestors.External.HashModels.{pairs}
use zestors.Distr.Messaging.Monitors.{
  Key, Monitors, new, begin, end, cancel_removed, cancel, token_if, tokens_of, drop_node, Node,
  first_state, asks, begins, reaches, gives_up, ends, calls_off, loses, Reach, start, later,
}

module _ (D : DashMap pairs ℕ) where
  -- Each entry has a token of its own, which is not cancelled.
  pub record WellFormed (m : Monitors D) : Type 0 where
    pub made : (k : Key) (token : ℕ) → D.get m.live k ≡ some token → token < m.next_token
    pub own :
        (k j : Key) (token : ℕ)
        → D.get m.live k ≡ some token
        → D.get m.live j ≡ some token
        → pairs.same k j ≡ true
    pub live : (k : Key) (token : ℕ) → D.get m.live k ≡ some token → elem token m.cancelled ≡ false
    pub was_made : (token : ℕ) → elem token m.cancelled ≡ true → token < m.next_token

  new-WellFormed : WellFormed (new D)
  unfolding new
  new-WellFormed = record {
    made = λ k token e. ground (arith, D.get-new k);
    own = λ k j token e h. ground (arith, D.get-new k);
    live = λ k token e. refl;
    was_made = λ token h. ground arith;
  }

  module _ (m : Monitors D) (w : WellFormed m) where
    begin-WellFormed : (key : Key) → WellFormed (begin D key m).0
    unfolding begin
    begin-WellFormed key = record {
      made = λ k token e. ground (arith, D.get-insert m.live key m.next_token k, w.made k token);
      own = λ k j token e h. ground (
        arith,
        D.get-insert m.live key m.next_token k,
        D.get-insert m.live key m.next_token j,
        w.own k j token,
        w.made k token,
        w.made j token,
      );
      live = λ k token e.
          ground (
            arith,
            D.get-insert m.live key m.next_token k,
            w.live k token,
            w.was_made m.next_token,
          );
      was_made = λ token h. ground (arith, w.was_made token);
    }

    end-WellFormed : (key : Key) → WellFormed (end D key m)
    unfolding end
    end-WellFormed key = record {
      made = λ k token e. ground (arith, D.get-remove m.live key k, w.made k token);
      own = λ k j token e h.
          ground (arith, D.get-remove m.live key k, D.get-remove m.live key j, w.own k j token);
      live = λ k token e. ground (arith, D.get-remove m.live key k, w.live k token);
      was_made = w.was_made;
    }

    cancel_removed-WellFormed :
        (key : Key) (o : Option ℕ) → D.get m.live key ≡ o → WellFormed (cancel_removed D key o m)
    cancel_removed-WellFormed key none e = w
    cancel_removed-WellFormed key (some t) e = record {
      made = λ k token e'. ground (arith, D.get-remove m.live key k, w.made k token);
      own = λ k j token e' h.
          ground (arith, D.get-remove m.live key k, D.get-remove m.live key j, w.own k j token);
      live = λ k token e'.
          ground (arith, D.get-remove m.live key k, w.live k token, w.own key k token);
      was_made = λ token h. ground (arith, w.was_made token, w.made key t e);
    }

  abbrev holds : Option ℕ → ℕ → Bool
  holds none token = false
  holds (some t) token = t == token

  token_if-elem :
      (b : Bool) (o : Option ℕ) (tokens : List ℕ) (token : ℕ)
      → elem token (token_if D b o tokens) ≡ (b && holds o token || elem token tokens)
  token_if-elem false o tokens token = refl
  token_if-elem true none tokens token = refl
  token_if-elem true (some t) tokens token = refl

  -- The tokens that the loss of a node cancels.
  pub tokens_of-in :
      (node : ℕ) (live : D.Map) (ks : List Key) (key : Key) (token : ℕ)
      → among pairs key ks ≡ true
      → (key.0 == node) ≡ true
      → D.get live key ≡ some token
      → elem token (tokens_of D node live ks) ≡ true
  tokens_of-in node live [] key token a n e = a
  tokens_of-in node live (k ∷ ks) key token a n e =
      token_if-elem (k.0 == node) (D.get live k) (tokens_of D node live ks) token
      ∙ elim (Bool-cases (pairs.same k key)) [
        | inl here ↦
            let at : D.get live k ≡ some token = ap (D.get live) (pairs.same→≡ k key here) ∙ e in
            rw at (ground arith)
        | inr other ↦
            let rest = tokens_of-in node live ks key token (ground arith) n e in
            rw rest (ground arith)
      ]

  holds-some : (o : Option ℕ) (token : ℕ) → holds o token ≡ true → o ≡ some token
  holds-some none token h = absurd (ground arith)
  holds-some (some t) token h = ap some (ground arith)

  pub tokens_of-out :
      (node : ℕ) (live : D.Map) (ks : List Key) (token : ℕ)
      → elem token (tokens_of D node live ks) ≡ true
      → (k : Key) × ((k.0 == node) ≡ true) × (D.get live k ≡ some token)
  tokens_of-out node live [] token h = absurd (ground arith)
  tokens_of-out node live (k ∷ ks) token h =
      let e = token_if-elem (k.0 == node) (D.get live k) (tokens_of D node live ks) token in
      elim (Bool-cases ((k.0 == node) && holds (D.get live k) token)) [
        | inl here ↦ (k, ground arith, holds-some (D.get live k) token (ground arith))
        | inr other ↦ tokens_of-out node live ks token (ground arith)
      ]

  kept_by-some :
      (p : Key → ℕ → Bool) (k : Key) (o : Option ℕ) (token : ℕ)
      → kept_by pairs p k o ≡ some token
      → (o ≡ some token) × (p k token ≡ true)
  kept_by-some p k none token h = absurd (ground arith)
  kept_by-some p k (some t) token h = elim (Bool-cases (p k t)) [
    | inl yes' ↦ let e : t ≡ token = ground arith in (ap some e, subst (λ x. p k x ≡ true) e yes')
    | inr no' ↦ absurd (ground arith)
  ]

  module _ (m : Monitors D) (w : WellFormed m) (node : ℕ) where
    -- What is in the table after a node was lost.
    pub drop_node-get :
        (k : Key) (token : ℕ)
        → D.get (drop_node D node m).live k ≡ some token
        → (D.get m.live k ≡ some token) × ((k.0 == node) ≡ false)
    unfolding drop_node
    drop_node-get k token e =
        let f = λ (k : Key) (t : ℕ). not (k.0 == node) in
        let (h, n) = kept_by-some f k (D.get m.live k) token (sym (D.get-retain f m.live k) ∙ e) in
        (h, ground arith)

    -- A token that a lost node cancels was that of one of its entries.
    pub drop_node-cancelled :
        (token : ℕ)
        → elem token (drop_node D node m).cancelled ≡ true
        → (elem token m.cancelled ≡ true)
          ⊎ ((k : Key) × ((k.0 == node) ≡ true) × (D.get m.live k ≡ some token))
    unfolding drop_node
    drop_node-cancelled token h =
        let e = elem-append token (tokens_of D node m.live (D.keys m.live)) m.cancelled in
        elim (Bool-cases (elem token m.cancelled)) [
          | inl before ↦ inl before
          | inr not_yet ↦ inr (tokens_of-out node m.live (D.keys m.live) token (ground arith))
        ]

    drop_node-live :
        (k : Key) (token : ℕ)
        → D.get (drop_node D node m).live k ≡ some token
        → elem token (drop_node D node m).cancelled ≡ false
    drop_node-live k token e =
        let (h, n) = drop_node-get k token e in
        elim (Bool-cases (elem token (drop_node D node m).cancelled)) [
          | inl gone ↦ elim (drop_node-cancelled token gone) [
            | inl before ↦ absurd (ground (arith, w.live k token h))
            | inr (j, n', h') ↦ absurd (ground (arith, w.own k j token h h'))
          ]
          | inr still ↦ still
        ]

    drop_node-was_made :
        (token : ℕ) → elem token (drop_node D node m).cancelled ≡ true → token < m.next_token
    drop_node-was_made token h = elim (drop_node-cancelled token h) [
      | inl before ↦ w.was_made token before
      | inr (j, n, h') ↦ w.made j token h'
    ]

    drop_node-WellFormed : WellFormed (drop_node D node m)
    unfolding drop_node
    drop_node-WellFormed = record {
      made = λ k token e. w.made k token (drop_node-get k token e).0;
      own =
          λ k j token e h. w.own k j token (drop_node-get k token e).0 (drop_node-get j token h).0;
      live = drop_node-live;
      was_made = drop_node-was_made;
    }

  pub cancel-WellFormed :
      (m : Monitors D) → WellFormed m → (key : Key) → WellFormed (cancel D key m)
  unfolding cancel
  cancel-WellFormed m w key = cancel_removed-WellFormed m w key (D.get m.live key) refl

  pub Reach-WellFormed : {s : Node D} → Reach D s → WellFormed s.monitors
  unfolding first_state
  Reach-WellFormed start = new-WellFormed
  Reach-WellFormed (later r (asks key)) = Reach-WellFormed r
  Reach-WellFormed (later {s} r (begins xs ys key e)) =
      begin-WellFormed s.monitors (Reach-WellFormed r) key
  Reach-WellFormed (later r (reaches xs ys key token e)) = Reach-WellFormed r
  Reach-WellFormed (later r (gives_up xs ys key token e c)) = Reach-WellFormed r
  Reach-WellFormed (later {s} r (ends xs ys key e)) =
      end-WellFormed s.monitors (Reach-WellFormed r) key
  Reach-WellFormed (later {s} r (calls_off key)) =
      cancel-WellFormed s.monitors (Reach-WellFormed r) key
  Reach-WellFormed (later {s} r (loses node)) =
      drop_node-WellFormed s.monitors (Reach-WellFormed r) node
