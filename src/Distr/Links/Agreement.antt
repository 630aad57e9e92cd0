-- ===== src/Distr/Links/Agreement.antt =====
-- Two nodes that dial each other at once keep the same connection.
use zestors.Base.{
  ℕ, ◌≡◌, ◌≢◌, inl, inr, refl, sym, ◌∙◌, Bool, true, false, none, some, ◌∷◌, elem, leb, ◌==◌,
  if◌then◌else◌, arith, Bool-cases, ==_refl,
}
use zestors.External.DashMap.{DashMap}
use zestors.External.HashModels.{numbers}
use zestors.Distr.Links.Connections.{
  Registered, keep_new, Connections, is_closed, close, live, register, register_over, settle,
}
use zestors.Distr.Links.Connections

module _ (D : DashMap numbers Registered) where
  -- The one connection is alive and registered, and the other is closed.
  pub record Keeps (s : Connections D) (peer kept dropped : ℕ) : Type 0 where
    pub alive : live D peer s ≡ some kept
    pub ended : is_closed D dropped s ≡ true

  -- Two connections to a peer, one dialed by each side, of which neither is closed yet.
  pub record Crossing (s : Connections D) (peer : ℕ) (r q : Registered) : Type 0 where
    pub apart : r.conn ≢ q.conn
    pub open_first : is_closed D r.conn s ≡ false
    pub open_second : is_closed D q.conn s ≡ false
    pub generation : r.generation ≡ q.generation
    pub sides : r.dialer ≢ q.dialer

  abbrev pub smaller : ℕ → ℕ → ℕ
  smaller a b = if leb a b then a else b

  -- The one that is registered is found by the other.
  module _ (t : Connections D) (peer : ℕ) (r q : Registered) (c : Crossing t peer r q)
      (there : D.get t.conns peer ≡ some r) where
    kept_new : keep_new t.local peer q.generation q.dialer r ≡ (q.dialer == smaller t.local peer)
    unfolding keep_new
    kept_new = ground (arith, c.generation, c.sides)

    second_wins :
        (q.dialer == smaller t.local peer) ≡ true → Keeps (settle D peer q t).0 peer q.conn r.conn
    unfolding settle register live close
    second_wins w =
        let open' : elem q.conn (r.conn ∷ t.closed) ≡ false =
          ground (arith, c.apart, c.open_second) in
        record {
          alive =
              rw
                (
                  there,
                  c.open_first,
                  kept_new,
                  w,
                  D.get-insert t.conns peer q peer,
                  ==_refl peer,
                  open',
                )
                refl;
          ended = rw (there, c.open_first, kept_new, w, ==_refl r.conn) refl;
        }

    second_loses :
        (q.dialer == smaller t.local peer) ≡ false → Keeps (settle D peer q t).0 peer r.conn q.conn
    unfolding settle register live close
    second_loses w =
        let open' : elem r.conn (q.conn ∷ t.closed) ≡ false =
          ground (arith, c.apart, c.open_first) in
        record {
          alive = rw (there, c.open_first, kept_new, w, there, open') refl;
          ended = rw (there, c.open_first, kept_new, w, ==_refl q.conn) refl;
        }

    -- Whichever of the two came first, the one dialed by the smaller name is kept.
    settled :
        (won lost : ℕ)
        → ((q.dialer == smaller t.local peer) ≡ true → (won ≡ q.conn) × (lost ≡ r.conn))
        → ((q.dialer == smaller t.local peer) ≡ false → (won ≡ r.conn) × (lost ≡ q.conn))
        → Keeps (settle D peer q t).0 peer won lost
    settled won lost f g = elim (Bool-cases (q.dialer == smaller t.local peer)) [
      | inl w ↦ rw ((f w).0, (f w).1) (second_wins w)
      | inr w ↦ rw ((g w).0, (g w).1) (second_loses w)
    ]

  -- The first of the two is registered where nothing was.
  module _ (s : Connections D) (peer : ℕ) (r q : Registered) (c : Crossing s peer r q)
      (vacant : D.get s.conns peer ≡ none) where
    settle-vacant : (settle D peer r s).0 ≡ Connections.put D peer r s
    unfolding settle register
    settle-vacant = rw vacant refl

    after_first :
        (won lost : ℕ)
        → ((q.dialer == smaller s.local peer) ≡ true → (won ≡ q.conn) × (lost ≡ r.conn))
        → ((q.dialer == smaller s.local peer) ≡ false → (won ≡ r.conn) × (lost ≡ q.conn))
        → Keeps (settle D peer q (settle D peer r s).0).0 peer won lost
    after_first won lost f g = rw settle-vacant (
        settled (Connections.put D peer r s) peer r q
          (record {
            apart = c.apart;
            open_first = c.open_first;
            open_second = c.open_second;
            generation = c.generation;
            sides = c.sides;
          })
          (D.get-insert s.conns peer r peer ∙ rw (==_refl peer) refl) won lost f g)

  -- The connection that this side dialed, and the one that the peer dialed, in either order.
  abbrev pub in_order : Bool → ℕ → Registered → Registered → Connections D → Connections D
  in_order true peer mine theirs s = (settle D peer theirs (settle D peer mine s).0).0
  in_order false peer mine theirs s = (settle D peer mine (settle D peer theirs s).0).0

  one_side :
      (order : Bool) (s : Connections D) (peer : ℕ) (mine theirs : Registered)
      → Crossing s peer mine theirs
      → D.get s.conns peer ≡ none
      → mine.dialer ≡ s.local
      → theirs.dialer ≡ peer
      → (won lost : ℕ) → (leb s.local peer ≡ true → (won ≡ mine.conn) × (lost ≡ theirs.conn))
      → (leb s.local peer ≡ false → (won ≡ theirs.conn) × (lost ≡ mine.conn))
      → Keeps (in_order order peer mine theirs s) peer won lost
  one_side true s peer mine theirs c vacant m t won lost f g =
      after_first s peer mine theirs c vacant won lost (λ w. g (ground (arith, c.sides)))
        (λ w. f (ground (arith, c.sides)))
  one_side false s peer mine theirs c vacant m t won lost f g =
      after_first s peer theirs mine
        (record {
          apart = λ e. c.apart (sym e);
          open_first = c.open_second;
          open_second = c.open_first;
          generation = sym c.generation;
          sides = λ e. c.sides (sym e);
        })
        vacant won lost (λ w. f (ground (arith, c.sides))) (λ w. g (ground (arith, c.sides)))

  -- Two nodes that dialed each other at once, each with its own numbers for the two connections: the one
  -- that `a` dialed and the one that `b` dialed.
  pub record Dialed (s : Connections D) (peer : ℕ) (mine theirs : Registered) : Type 0 where
    pub crossing : Crossing s peer mine theirs
    pub vacant : D.get s.conns peer ≡ none
    pub by_us : mine.dialer ≡ s.local
    pub by_them : theirs.dialer ≡ peer

  -- When two nodes have dialed each other at once and neither had a connection to the other, both keep the
  -- same one of the two connections, the one that the smaller name dialed, and close the other, in
  -- whichever order each of them comes to know of the two.
  pub agreement :
      (at_a at_b : Bool) (s t : Connections D) (a_of_a b_of_a a_of_b b_of_b : Registered)
      → Dialed s t.local a_of_a b_of_a
      → Dialed t s.local b_of_b a_of_b
      → Keeps
          (in_order at_a t.local a_of_a b_of_a s)
          t.local
          (if leb s.local t.local then a_of_a.conn else b_of_a.conn)
          (if leb s.local t.local then b_of_a.conn else a_of_a.conn)
        × Keeps
            (in_order at_b s.local b_of_b a_of_b t)
            s.local
            (if leb s.local t.local then a_of_b.conn else b_of_b.conn)
            (if leb s.local t.local then b_of_b.conn else a_of_b.conn)
  agreement at_a at_b s t x y x' y' d e = (
    one_side at_a s t.local x y d.crossing d.vacant d.by_us d.by_them
        (if leb s.local t.local then x.conn else y.conn)
        (if leb s.local t.local then y.conn else x.conn) (λ h. (rw h refl, rw h refl))
        (λ h. (rw h refl, rw h refl)),
    one_side at_b t s.local y' x' e.crossing e.vacant e.by_us e.by_them
        (if leb s.local t.local then x'.conn else y'.conn)
        (if leb s.local t.local then y'.conn else x'.conn)
        (λ h. (
          ground (arith, d.crossing.sides, d.by_us, d.by_them),
          ground (arith, d.crossing.sides, d.by_us, d.by_them),
        ))
        (λ h. (
          ground (arith, d.crossing.sides, d.by_us, d.by_them),
          ground (arith, d.crossing.sides, d.by_us, d.by_them),
        )),
  )
