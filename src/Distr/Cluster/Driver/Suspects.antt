-- ===== src/Distr/Cluster/Driver/Suspects.antt =====
-- The nodes that wait out their grace: the queue of departures and its keys, as one map.
use zestors.Base.{
  ℕ, ◌≡◌, inl, inr, refl, subst, false, Option, none, some, List, [], ◌==◌, if◌then◌else◌,
  Bool-cases, arith, ==_iff,
}
use zestors.Base.Maps
use zestors.Base.Maps.{get-insert, get-remove}
use zestors.External.DelayQueue.{DelayQueue}
use zestors.Distr.Cluster.Member.{Member}
use zestors.Distr.Cluster.Driver.{try_remove}

module _ (Q : DelayQueue Member) where
  -- The queue and the keys agree: a key leads to a departure of its node, and every departure is found
  -- by the key of its node.
  pub record Agree (q : Q.Queue) (keys : List (ℕ × ℕ)) : Type 0 where
    pub leads :
        (n k : ℕ) → Maps.get n keys ≡ some k → (m : Member) × (Q.get q k ≡ some m) × (m.name ≡ n)
    pub leads_back : (k : ℕ) (m : Member) → Q.get q k ≡ some m → Maps.get m.name keys ≡ some k

  abbrev pub at_key : Q.Queue → Option ℕ → Option Member
  at_key q none = none
  at_key q (some k) = Q.get q k

  -- The departure that is pending for a node.
  abbrev pub pending : Q.Queue → List (ℕ × ℕ) → ℕ → Option Member
  pending q keys n = at_key q (Maps.get n keys)

  pub new-Agree : Agree Q.new []
  unfolding Maps.get
  new-Agree = record { leads = λ n k h. cc; leads_back = λ k m h. cc (Q.get-new k) }

  module _ (q : Q.Queue) (keys : List (ℕ × ℕ)) (a : Agree q keys) where
    -- To take a key out of both keeps them in agreement, and drops one node.
    pub dropped-Agree :
        (k : ℕ) (m : Member) → Q.get q k ≡ some m → Agree (Q.remove q k) (Maps.remove m.name keys)
    dropped-Agree k m h = record {
      leads = λ n j e.
          let (x, p, r) = a.leads n j (ground (arith, get-remove keys m.name n)) in
          (x, ground (arith, Q.get-remove q k j, get-remove keys m.name n), r);
      leads_back = λ j b e. ground (
        arith,
        Q.get-remove q k j,
        a.leads_back j b,
        a.leads_back k m h,
        get-remove keys m.name b.name,
      );
    }

    unchanged :
        (k : ℕ) (m : Member) (j : ℕ) (o : Option ℕ)
        → Q.get q k ≡ some m
        → (m.name == j) ≡ false
        → Maps.get j keys ≡ o
        → at_key (Q.remove q k) o ≡ at_key q o
    unchanged k m j none h other e = refl
    unchanged k m j (some i) h other e =
        let (x, p, r) = a.leads j i e in ground (arith, Q.get-remove q k i)

    pub dropped-pending :
        (k : ℕ) (m : Member) (j : ℕ)
        → Q.get q k ≡ some m
        → pending (Q.remove q k) (Maps.remove m.name keys) j
          ≡ (if m.name == j then none else pending q keys j)
    dropped-pending k m j h = elim (Bool-cases (m.name == j)) [
      | inl same ↦ rw (get-remove keys m.name j, same) refl
      | inr other ↦
          rw (get-remove keys m.name j, other) (unchanged k m j (Maps.get j keys) h other refl)
    ]

    pub suspected-Agree :
        (m : Member) (grace : ℕ) (o : Option ℕ)
        → Maps.get m.name keys ≡ o
        → Agree
            (try_remove Q o (Q.insert q m grace).1)
            (Maps.insert m.name (Q.insert q m grace).0 keys)
    suspected-Agree m grace none e = record {
      leads = λ n k h. elim (Bool-cases (m.name == n)) [
        | inl same ↦ (
          m,
          ground (arith, Q.get-insert q m grace k, get-insert keys m.name (Q.insert q m grace).0 n),
          (==_iff m.name n).0 same,
        )
        | inr other ↦
            let (x, p, r) =
              a.leads n k (ground (arith, get-insert keys m.name (Q.insert q m grace).0 n)) in
            (x, ground (arith, Q.get-insert q m grace k, Q.insert-fresh q m grace), r)
      ];
      leads_back = λ k b h. ground (
        arith,
        Q.get-insert q m grace k,
        a.leads_back k b,
        get-insert keys m.name (Q.insert q m grace).0 b.name,
      );
    }
    suspected-Agree m grace (some old) e = record {
      leads = λ n k h. elim (Bool-cases (m.name == n)) [
        | inl same ↦
            let (y, u, v) = a.leads m.name old e in
            (
              m,
              ground (
                arith,
                Q.get-insert q m grace k,
                Q.get-remove (Q.insert q m grace).1 old k,
                Q.insert-fresh q m grace,
                get-insert keys m.name (Q.insert q m grace).0 n,
              ),
              (==_iff m.name n).0 same,
            )
        | inr other ↦
            let (x, p, r) =
              a.leads n k (ground (arith, get-insert keys m.name (Q.insert q m grace).0 n)) in
            let (y, u, v) = a.leads m.name old e in
            (
              x,
              ground (
                arith,
                Q.get-insert q m grace k,
                Q.get-remove (Q.insert q m grace).1 old k,
                Q.insert-fresh q m grace,
              ),
              r,
            )
      ];
      leads_back = λ k b h.
          let (x, p, r) = a.leads m.name old e in
          ground (
            arith,
            Q.get-insert q m grace k,
            Q.get-remove (Q.insert q m grace).1 old k,
            a.leads_back k b,
            get-insert keys m.name (Q.insert q m grace).0 b.name,
          );
    }

    suspected_self :
        (m : Member) (grace : ℕ) (o : Option ℕ)
        → Maps.get m.name keys ≡ o
        → Q.get (try_remove Q o (Q.insert q m grace).1) (Q.insert q m grace).0 ≡ some m
    suspected_self m grace none e = ground (arith, Q.get-insert q m grace (Q.insert q m grace).0)
    suspected_self m grace (some old) e =
        let (y, u, v) = a.leads m.name old e in
        ground (
          arith,
          Q.get-insert q m grace (Q.insert q m grace).0,
          Q.insert-fresh q m grace,
          Q.get-remove (Q.insert q m grace).1 old (Q.insert q m grace).0,
        )

    suspected_other :
        (m : Member) (grace j : ℕ) (o p : Option ℕ)
        → (m.name == j) ≡ false
        → Maps.get m.name keys ≡ o
        → Maps.get j keys ≡ p
        → at_key (try_remove Q o (Q.insert q m grace).1) p ≡ at_key q p
    suspected_other m grace j o none other e h = refl
    suspected_other m grace j none (some i) other e h =
        let (x, u, v) = a.leads j i h in
        ground (arith, Q.get-insert q m grace i, Q.insert-fresh q m grace)
    suspected_other m grace j (some old) (some i) other e h =
        let (x, u, v) = a.leads j i h in
        let (y, t, w) = a.leads m.name old e in
        ground (
          arith,
          Q.get-insert q m grace i,
          Q.insert-fresh q m grace,
          Q.get-remove (Q.insert q m grace).1 old i,
        )

    -- What is pending after a node was declared down: it, instead of an earlier incarnation.
    pub suspected-pending :
        (m : Member) (grace j : ℕ)
        → pending
            (try_remove Q (Maps.get m.name keys) (Q.insert q m grace).1)
            (Maps.insert m.name (Q.insert q m grace).0 keys)
            j
          ≡ (if m.name == j then some m else pending q keys j)
    suspected-pending m grace j = elim (Bool-cases (m.name == j)) [
      | inl same ↦
          rw (get-insert keys m.name (Q.insert q m grace).0 j, same)
            (suspected_self m grace (Maps.get m.name keys) refl)
      | inr other ↦
          rw (get-insert keys m.name (Q.insert q m grace).0 j, other)
            (suspected_other m grace j (Maps.get m.name keys) (Maps.get j keys) other refl refl)
    ]

    pub cancelled-Agree :
        (n : ℕ) (o : Option ℕ) → Maps.get n keys ≡ o → Agree (try_remove Q o q) (Maps.remove n keys)
    cancelled-Agree n none e = record {
      leads = λ j k h. a.leads j k (ground (arith, get-remove keys n j));
      leads_back = λ k b h. ground (arith, a.leads_back k b, get-remove keys n b.name);
    }
    cancelled-Agree n (some k) e =
        let (x, p, r) = a.leads n k e in
        subst (λ j. Agree (Q.remove q k) (Maps.remove j keys)) r (dropped-Agree k x p)

    pub cancelled-pending :
        (n j : ℕ) (o : Option ℕ)
        → Maps.get n keys ≡ o
        → pending (try_remove Q o q) (Maps.remove n keys) j
          ≡ (if n == j then none else pending q keys j)
    cancelled-pending n j none e = elim (Bool-cases (n == j)) [
      | inl same ↦ rw (get-remove keys n j, same) refl
      | inr other ↦ rw (get-remove keys n j, other) refl
    ]
    cancelled-pending n j (some k) e =
        let (x, p, r) = a.leads n k e in
        subst
          (λ i.
            pending (Q.remove q k) (Maps.remove i keys) j
            ≡ (if i == j then none else pending q keys j))
          r (dropped-pending k x j p)
