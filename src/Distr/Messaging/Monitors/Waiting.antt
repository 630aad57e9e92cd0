-- ===== src/Distr/Messaging/Monitors/Waiting.antt =====
-- monitors.rs: the monitors that wait, and their entries in the table.
use zestors.Base.{
  ℕ, ◌≡◌, ◌<◌, refl, sym, ap, subst, ◌∙◌, inl, inr, true, false, not, Option, none, some, List, [],
  ◌∷◌, ◌++◌, ◌==◌, elem, elem-append, All, Bool-cases, arith,
}
use zestors.External.DashMap.{DashMap, among}
use zestors.External.HashModels.{pairs}
use zestors.Distr.Messaging.Monitors.{
  Key, Stage, asked, waiting, answered, ended, Monitor, Monitors, begin, end, cancel_removed,
  cancel, tokens_of, drop_node, Node, first_state, asks, begins, reaches, gives_up, ends, calls_off,
  loses, Reach, start, later, keys_of,
}
use zestors.Distr.Messaging.Monitors.Kept.{tokens_of-in}

module _ (D : DashMap pairs ℕ) where
  -- A monitor that waits for a token that was made; it is in the table, unless the token is cancelled.
  abbrev pub Waits : Monitors D → Key → ℕ → Type 0
  Waits m key token =
      (token < m.next_token) × (elem token m.cancelled ≡ false → D.get m.live key ≡ some token)

  abbrev pub HeldAt : Monitors D → Key → Stage → Type 0
  HeldAt m key asked = Unit
  HeldAt m key (waiting token) = Waits m key token
  HeldAt m key answered = Unit
  HeldAt m key ended = Unit

  abbrev pub Held : Monitors D → Monitor → Type 0
  Held m t = HeldAt m t.key t.stage

  abbrev pub Distinct : List Key → Type 0
  Distinct [] = Unit
  Distinct (k ∷ ks) = (among pairs k ks ≡ false) × Distinct ks

  -- Each monitor is asked for under an id that its node has not used before.
  abbrev pub Fresh : {s : Node D} → Reach D s → Type 0
  Fresh start = Unit
  Fresh (later {s} r (asks key)) = Fresh r × (among pairs key (keys_of D s.tasks) ≡ false)
  Fresh (later r (begins xs ys key e)) = Fresh r
  Fresh (later r (reaches xs ys key token e)) = Fresh r
  Fresh (later r (gives_up xs ys key token e c)) = Fresh r
  Fresh (later r (ends xs ys key e)) = Fresh r
  Fresh (later r (calls_off key)) = Fresh r
  Fresh (later r (loses node)) = Fresh r

  abbrev pub Other : Key → Monitor → Type 0
  Other key t = pairs.same key t.key ≡ false

  Other-after :
      (key : Key) (ys : List Monitor) → among pairs key (keys_of D ys) ≡ false → All (Other key) ys
  Other-after key [] h = tt
  Other-after key (y ∷ ys) h = (ground arith, Other-after key ys (ground arith))

  among-middle :
      (k : Key) (xs ys : List Monitor) (t : Monitor)
      → among pairs k (keys_of D (xs ++ t ∷ ys)) ≡ false
      → pairs.same t.key k ≡ false
  among-middle k [] ys t h = ground arith
  among-middle k (x ∷ xs) ys t h = among-middle k xs ys t (ground arith)

  pub others :
      (xs ys : List Monitor) (t : Monitor)
      → Distinct (keys_of D (xs ++ t ∷ ys))
      → All (Other t.key) xs × All (Other t.key) ys
  others [] ys t d = (tt, Other-after t.key ys d.0)
  others (x ∷ xs) ys t d =
      let (before, after) = others xs ys t d.1 in ((among-middle x.key xs ys t d.0, before), after)

  same_keys :
      (xs ys : List Monitor) (key : Key) (a b : Stage)
      → keys_of D (xs ++ record { key = key; stage = a } ∷ ys)
        ≡ keys_of D (xs ++ record { key = key; stage = b } ∷ ys)
  same_keys [] ys key a b = refl
  same_keys (x ∷ xs) ys key a b = ap (λ ks. x.key ∷ ks) (same_keys xs ys key a b)

  All-map :
      {P Q : Monitor → Type 0}
      → ((t : Monitor) → P t → Q t)
      → (ts : List Monitor) → All P ts
      → All Q ts
  All-map f [] h = tt
  All-map f (t ∷ ts) h = (f t h.0, All-map f ts h.1)

  -- One monitor moves on, and the others are as they were.
  All-moves :
      {P Q : Monitor → Type 0} (key : Key) (a b : Stage)
      → ((t : Monitor) → Other key t → P t → Q t)
      → Q (record { key = key; stage = b })
      → (xs ys : List Monitor) → All (Other key) xs
      → All (Other key) ys
      → All P (xs ++ record { key = key; stage = a } ∷ ys)
      → All Q (xs ++ record { key = key; stage = b } ∷ ys)
  All-moves {P = P} {Q = Q} key a b f q [] ys ox oy h = (q, after ys oy h.1)
    where
      after : (ys : List Monitor) → All (Other key) ys → All P ys → All Q ys
      after [] o h = tt
      after (y ∷ ys) o h = (f y o.0 h.0, after ys o.1 h.1)
  All-moves key a b f q (x ∷ xs) ys ox oy h =
      (f x ox.0 h.0, All-moves key a b f q xs ys ox.1 oy h.1)

  HeldAt-map :
      (m m' : Monitors D) (key : Key)
      → ((token : ℕ) → Waits m key token → Waits m' key token)
      → (st : Stage) → HeldAt m key st
      → HeldAt m' key st
  HeldAt-map m m' key f asked h = tt
  HeldAt-map m m' key f (waiting token) h = f token h
  HeldAt-map m m' key f answered h = tt
  HeldAt-map m m' key f ended h = tt

  module _ (m : Monitors D) where
    begin-Held : (key : Key) (t : Monitor) → Other key t → Held m t → Held (begin D key m).0 t
    unfolding begin
    begin-Held key t o h =
        HeldAt-map m _ t.key
          (λ token w.
            (ground arith, λ c. rw (D.get-insert m.live key m.next_token t.key, o) (w.1 c)))
          t.stage h

    begin-Waits : (key : Key) → Waits (begin D key m).0 key (begin D key m).1
    unfolding begin
    begin-Waits key =
        (ground arith, λ c. rw (D.get-insert m.live key m.next_token key, pairs.same_refl key) refl)

    end-Held : (key : Key) (t : Monitor) → Other key t → Held m t → Held (end D key m) t
    unfolding end
    end-Held key t o h =
        HeldAt-map m _ t.key (λ token w. (w.0, λ c. rw (D.get-remove m.live key t.key, o) (w.1 c)))
          t.stage h

    cancel_removed-Waits :
        (key : Key) (o : Option ℕ)
        → D.get m.live key ≡ o
        → (k : Key) (token : ℕ) → Waits m k token
        → Waits (cancel_removed D key o m) k token
    cancel_removed-Waits key none e k token w = w
    cancel_removed-Waits key (some t) e k token w = (
      w.0,
      λ c. elim (Bool-cases (pairs.same key k)) [
        | inl here ↦
            let at : D.get m.live k ≡ some t =
              ap (D.get m.live) (sym (pairs.same→≡ key k here)) ∙ e in
            absurd (ground (arith, w.1 (ground arith)))
        | inr other ↦ rw (D.get-remove m.live key k, other) (w.1 (ground arith))
      ],
    )

    cancel-Held : (key : Key) (t : Monitor) → Held m t → Held (cancel D key m) t
    unfolding cancel
    cancel-Held key t h =
        HeldAt-map m _ t.key (cancel_removed-Waits key (D.get m.live key) refl t.key) t.stage h

    drop_node-Waits :
        (node : ℕ) (k : Key) (token : ℕ) → Waits m k token → Waits (drop_node D node m) k token
    unfolding drop_node
    drop_node-Waits node k token w =
        let joined = elem-append token (tokens_of D node m.live (D.keys m.live)) m.cancelled in
        (
          w.0,
          λ c.
              let at : D.get m.live k ≡ some token = w.1 (ground arith) in
              let listed : among pairs k (D.keys m.live) ≡ true =
                D.among-keys m.live k ∙ rw at refl in
              let f = λ (j : Key) (t : ℕ). not (j.0 == node) in
              elim (Bool-cases (k.0 == node)) [
                | inl lost ↦ absurd (
                    ground
                      (arith, tokens_of-in D node m.live (D.keys m.live) k token listed lost at))
                | inr other ↦ D.get-retain f m.live k ∙ rw (at, other) refl
              ],
        )

    drop_node-Held : (node : ℕ) (t : Monitor) → Held m t → Held (drop_node D node m) t
    unfolding drop_node
    drop_node-Held node t h = HeldAt-map m _ t.key (drop_node-Waits node t.key) t.stage h

  pub record Kept (s : Node D) : Type 0 where
    pub held : All (Held s.monitors) s.tasks
    pub distinct : Distinct (keys_of D s.tasks)

  -- The step of one monitor.
  moved :
      (m m' : Monitors D) (xs ys ts : List Monitor) (key : Key) (a b : Stage)
      → ts ≡ xs ++ record { key = key; stage = a } ∷ ys
      → ((t : Monitor) → Other key t → Held m t → Held m' t)
      → HeldAt m' key b
      → Kept (record { monitors = m; tasks = ts })
      → Kept (record { monitors = m'; tasks = xs ++ record { key = key; stage = b } ∷ ys })
  moved m m' xs ys ts key a b e f q v =
      let d : Distinct (keys_of D (xs ++ record { key = key; stage = a } ∷ ys)) =
        subst (λ l. Distinct (keys_of D l)) e v.distinct in
      let (before, after) = others xs ys (record { key = key; stage = a }) d in
      record {
        held = All-moves key a b f q xs ys before after (subst (All (Held m)) e v.held);
        distinct = subst Distinct (same_keys xs ys key a b) d;
      }

  pub Reach-Kept : {s : Node D} (r : Reach D s) → Fresh r → Kept s
  unfolding first_state
  Reach-Kept start f = record { held = tt; distinct = tt }
  Reach-Kept (later r (asks key)) f =
      let v = Reach-Kept r f.0 in record { held = (tt, v.held); distinct = (f.1, v.distinct) }
  Reach-Kept (later {s} r (begins xs ys key e)) f =
      moved s.monitors _ xs ys s.tasks key asked _ e (begin-Held s.monitors key)
        (begin-Waits s.monitors key) (Reach-Kept r f)
  Reach-Kept (later {s} r (reaches xs ys key token e)) f =
      moved s.monitors _ xs ys s.tasks key (waiting token) answered e (λ t o h. h) tt
        (Reach-Kept r f)
  Reach-Kept (later {s} r (gives_up xs ys key token e c)) f =
      moved s.monitors _ xs ys s.tasks key (waiting token) answered e (λ t o h. h) tt
        (Reach-Kept r f)
  Reach-Kept (later {s} r (ends xs ys key e)) f =
      moved s.monitors _ xs ys s.tasks key answered ended e (end-Held s.monitors key) tt
        (Reach-Kept r f)
  Reach-Kept (later {s} r (calls_off key)) f =
      let v = Reach-Kept r f in
      record {
        held = All-map (λ t. cancel-Held s.monitors key t) s.tasks v.held;
        distinct = v.distinct;
      }
  Reach-Kept (later {s} r (loses node)) f =
      let v = Reach-Kept r f in
      record {
        held = All-map (λ t. drop_node-Held s.monitors node t) s.tasks v.held;
        distinct = v.distinct;
      }
