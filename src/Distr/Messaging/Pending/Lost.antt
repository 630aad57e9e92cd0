-- ===== src/Distr/Messaging/Pending/Lost.antt =====
-- What the loss of a node does to the calls.
use zestors.Base.{
  ℕ, ◌≡◌, refl, sym, ap, ◌∙◌, inl, inr, Bool, true, false, ◌||◌, ◌&&◌, Option, none, some, err,
  List, [], ◌∷◌, ◌==◌, ==_iff, if◌then◌else◌, elem, elem-append, Bool-cases, arith, All, All-append,
}
use zestors.Base.Maps.{is_some}
use zestors.External.DashMap.{DashMap, among}
use zestors.External.HashModels.{numbers}
use zestors.Distr.Messaging.Pending.{
  Answer, PendingCall, Pending, answer_if, went_to, fail_one, each, is_to, calls_to, fail_node,
  disconnected,
}
use zestors.Distr.Messaging.Pending.Once.{channels, channels-append}

module _ (D : DashMap numbers PendingCall) (node : ℕ) where
  -- A call that is waited for, unless it went to the node.
  abbrev pub unless_to : Option PendingCall → Option PendingCall
  unless_to none = none
  unless_to (some c) = if c.node == node then none else some c

  answer_if-get :
      (id : ℕ) (o : Option PendingCall) (p : Pending D) (j : ℕ)
      → D.get p.calls id ≡ o
      → D.get (answer_if D (went_to D node) id (err disconnected) o p).0.calls j
        ≡ (if id == j then unless_to (D.get p.calls j) else D.get p.calls j)
  answer_if-get id none p j e = ground arith
  answer_if-get id (some c) p j e = elim (Bool-cases (c.node == node)) [
    | inl there ↦ rw there (ground (arith, D.get-remove p.calls id j))
    | inr other ↦ rw other (ground arith)
  ]

  fail_one-get :
      (id : ℕ) (p : Pending D) (j : ℕ)
      → D.get (fail_one D node id p).0.calls j
        ≡ (if id == j then unless_to (D.get p.calls j) else D.get p.calls j)
  unfolding fail_one
  fail_one-get id p j = answer_if-get id (D.get p.calls id) p j refl

  unless_to-twice : (o : Option PendingCall) → unless_to (unless_to o) ≡ unless_to o
  unless_to-twice none = refl
  unless_to-twice (some c) = ground arith

  each-get :
      (ids : List ℕ) (p : Pending D) (j : ℕ)
      → D.get (each D (fail_one D node) ids p).0.calls j
        ≡ (if elem j ids then unless_to (D.get p.calls j) else D.get p.calls j)
  unfolding each
  each-get [] p j = refl
  each-get (id ∷ ids) p j =
      each-get ids (fail_one D node id p).0 j
      ∙ rw (fail_one-get id p j) (both (id == j) (elem j ids))
    where
      both :
          (a b : Bool)
          → (if b
              then unless_to (if a then unless_to (D.get p.calls j) else D.get p.calls j)
              else (if a then unless_to (D.get p.calls j) else D.get p.calls j))
            ≡ (if a || b then unless_to (D.get p.calls j) else D.get p.calls j)
      both true true = unless_to-twice (D.get p.calls j)
      both true false = refl
      both false true = refl
      both false false = refl

  elem-calls_to :
      (p : Pending D) (ids : List ℕ) (j : ℕ)
      → elem j (calls_to D node p ids) ≡ (elem j ids && is_to D node (D.get p.calls j))
  elem-calls_to p [] j = refl
  elem-calls_to p (id ∷ ids) j = elim (Bool-cases (id == j)) [
    | inl here ↦ let at : id ≡ j = (==_iff id j).0 here in ground (arith, elem-calls_to p ids j)
    | inr other ↦ ground (arith, elem-calls_to p ids j)
  ]

  among-elem : (ids : List ℕ) (j : ℕ) → among numbers j ids ≡ elem j ids
  among-elem [] j = refl
  among-elem (id ∷ ids) j = ground (arith, among-elem ids j)

  unless_to-other : (o : Option PendingCall) → is_to D node o ≡ false → unless_to o ≡ o
  unless_to-other none h = refl
  unless_to-other (some c) h = rw h refl

  is_some-is_to : (o : Option PendingCall) → is_to D node o ≡ true → is_some o ≡ true
  is_some-is_to none h = h
  is_some-is_to (some c) h = refl

  listed :
      (p : Pending D) (j : ℕ)
      → is_to D node (D.get p.calls j) ≡ true
      → elem j (calls_to D node p (D.keys p.calls)) ≡ true
  listed p j h = ground (
    arith,
    elem-calls_to p (D.keys p.calls) j,
    among-elem (D.keys p.calls) j,
    D.among-keys p.calls j,
    is_some-is_to (D.get p.calls j) h,
  )

  either : (b : Bool) (o : Option PendingCall) → (if b then o else o) ≡ o
  either true o = refl
  either false o = refl

  fail_node-get :
      (p : Pending D) (j : ℕ) → D.get (fail_node D node p).0.calls j ≡ unless_to (D.get p.calls j)
  unfolding fail_node
  fail_node-get p j =
      each-get (calls_to D node p (D.keys p.calls)) p j
      ∙ (elim (Bool-cases (is_to D node (D.get p.calls j))) [
        | inl there ↦ rw (listed p j there) refl
        | inr other ↦
            rw (unless_to-other (D.get p.calls j) other)
              (either (elem j (calls_to D node p (D.keys p.calls))) (D.get p.calls j))
      ])

  abbrev pub AllLost : List Answer → Type 0
  AllLost as' = All (λ (a : Answer). a.1 ≡ err disconnected) as'

  answer_if-AllLost :
      (id : ℕ) (o : Option PendingCall) (p : Pending D)
      → AllLost (answer_if D (went_to D node) id (err disconnected) o p).1
  answer_if-AllLost id none p = tt
  answer_if-AllLost id (some c) p = elim (Bool-cases (c.node == node)) [
    | inl there ↦ rw there (refl, tt)
    | inr other ↦ rw other tt
  ]

  each-AllLost : (ids : List ℕ) (p : Pending D) → AllLost (each D (fail_one D node) ids p).1
  unfolding each fail_one
  each-AllLost [] p = tt
  each-AllLost (id ∷ ids) p =
      let r = fail_one D node id p in
      All-append (λ (a : Answer). a.1 ≡ err disconnected) r.1 (each D (fail_one D node) ids r.0).1
        (answer_if-AllLost id (D.get p.calls id) p) (each-AllLost ids r.0)

  answer_if-only :
      (id : ℕ) (o : Option PendingCall) (p : Pending D) (r : ℕ)
      → elem r (channels (answer_if D (went_to D node) id (err disconnected) o p).1) ≡ true
      → (c : PendingCall) × (o ≡ some c) × (c.node ≡ node) × (c.reply ≡ r)
  answer_if-only id none p r h = cc
  answer_if-only id (some c) p r h = (c, refl, ground arith, ground arith)

  answer_if-all :
      (id : ℕ) (o : Option PendingCall) (p : Pending D) (c : PendingCall)
      → o ≡ some c
      → c.node ≡ node
      → elem c.reply (channels (answer_if D (went_to D node) id (err disconnected) o p).1) ≡ true
  answer_if-all id none p c e k = cc
  answer_if-all id (some b) p c e k = ground arith

  fail_one-only :
      (id : ℕ) (p : Pending D) (r : ℕ)
      → elem r (channels (fail_one D node id p).1) ≡ true
      → (c : PendingCall) × (D.get p.calls id ≡ some c) × (c.node ≡ node) × (c.reply ≡ r)
  unfolding fail_one
  fail_one-only id p r h = answer_if-only id (D.get p.calls id) p r h

  fail_one-all :
      (j id : ℕ) (p : Pending D) (c : PendingCall)
      → j ≡ id
      → D.get p.calls id ≡ some c
      → c.node ≡ node
      → elem c.reply (channels (fail_one D node j p).1) ≡ true
  unfolding fail_one
  fail_one-all j id p c e g k = answer_if-all j (D.get p.calls j) p c (ap (D.get p.calls) e ∙ g) k

  still :
      (b : Bool) (o : Option PendingCall) (c : PendingCall)
      → (if b then unless_to o else o) ≡ some c
      → o ≡ some c
  still b none c h = ground arith
  still b (some x) c h = ground arith

  -- The rounds answer the calls to the node among the ids, and no others.
  each-all :
      (ids : List ℕ) (p : Pending D) (id : ℕ) (c : PendingCall)
      → elem id ids ≡ true
      → D.get p.calls id ≡ some c
      → c.node ≡ node
      → elem c.reply (channels (each D (fail_one D node) ids p).1) ≡ true
  unfolding each
  each-all [] p id c m g k = cc
  each-all (i ∷ ids) p id c m g k =
      let r = fail_one D node i p in
      rw
        (
          channels-append r.1 (each D (fail_one D node) ids r.0).1,
          elem-append c.reply (channels r.1) (channels (each D (fail_one D node) ids r.0).1),
        )
        (elim (Bool-cases (i == id)) [
          | inl here ↦ rw (fail_one-all i id p c ((==_iff i id).0 here) g k) refl
          | inr other ↦
              rw (each-all ids r.0 id c (ground arith) (fail_one-get i p id ∙ rw other g) k)
                (or_true (elem c.reply (channels r.1)))
        ])
    where
      or_true : (b : Bool) → (b || true) ≡ true
      or_true true = refl
      or_true false = refl

  each-only :
      (ids : List ℕ) (p : Pending D) (r : ℕ)
      → elem r (channels (each D (fail_one D node) ids p).1) ≡ true
      → (id : ℕ) × (c : PendingCall) × (D.get p.calls id ≡ some c) × (c.node ≡ node) × (c.reply ≡ r)
  unfolding each
  each-only [] p r h = cc
  each-only (i ∷ ids) p r h =
      let t = fail_one D node i p in
      elim (Bool-cases (elem r (channels t.1))) [
        | inl first ↦ let (c, e, k, q) = fail_one-only i p r first in (i, c, e, k, q)
        | inr later ↦
            let (id, c, e, k, q) = each-only ids t.0 r (
              ground (
                arith,
                channels-append t.1 (each D (fail_one D node) ids t.0).1,
                elem-append r (channels t.1) (channels (each D (fail_one D node) ids t.0).1),
              )) in
            (id, c, still (i == id) (D.get p.calls id) c (sym (fail_one-get i p id) ∙ e), k, q)
      ]

  -- When a node is lost, every call that went to it and waits is taken out and answered as disconnected,
  -- no other call is touched, and nothing else is answered.
  pub record FailsNode (p : Pending D) (r : Pending D × List Answer) : Type 0 where
    pub left : (id : ℕ) → D.get r.0.calls id ≡ unless_to (D.get p.calls id)
    pub lost : AllLost r.1
    pub all :
        (id : ℕ) (c : PendingCall)
        → D.get p.calls id ≡ some c
        → c.node ≡ node
        → elem c.reply (channels r.1) ≡ true
    pub only :
        (reply : ℕ)
        → elem reply (channels r.1) ≡ true
        → (id : ℕ) × (c : PendingCall) × (D.get p.calls id ≡ some c)
          × (c.node ≡ node)
          × (c.reply ≡ reply)

  is_to-some :
      (o : Option PendingCall) (c : PendingCall)
      → o ≡ some c
      → c.node ≡ node
      → is_to D node o ≡ true
  is_to-some none c e k = cc
  is_to-some (some b) c e k = ground arith

  -- When a node is lost, each call that went to it and still waits is taken out and answered as
  -- disconnected; every other call waits on as it did; and no other channel is answered.
  pub fail_node-FailsNode : (p : Pending D) → FailsNode p (fail_node D node p)
  unfolding fail_node
  fail_node-FailsNode p = record {
    left = fail_node-get p;
    lost = each-AllLost (calls_to D node p (D.keys p.calls)) p;
    all = λ id c g k.
        each-all (calls_to D node p (D.keys p.calls)) p id c
          (listed p id (is_to-some (D.get p.calls id) c g k)) g k;
    only = each-only (calls_to D node p (D.keys p.calls)) p;
  }
