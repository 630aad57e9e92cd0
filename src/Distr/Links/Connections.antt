-- ===== src/Distr/Links/Connections.antt =====
-- crates/distr/src/link/mod.rs: the one connection that is kept to a peer. A connection is a number; those
-- that were closed, by either side, are listed.
use zestors.Base.{
  ℕ, Bool, true, false, Option, none, some, List, [], ◌∷◌, elem, ltb, leb, ◌==◌, if◌then◌else◌,
}
use zestors.External.DashMap.{DashMap}
use zestors.External.HashModels.{numbers}
use zestors.Distr.Links.{PeerEvent, disconnected}

pub record Registered : Type 0 where
  pub conn : ℕ
  pub generation : ℕ
  pub dialer : ℕ

-- Which of two connections of one generation is kept, when a new one was dialed by one side and the one
-- that is there by the other: the one that the smaller name dialed.
abbrev pub dialed_by_smaller : ℕ → ℕ → ℕ → Bool
dialed_by_smaller local peer dialer = dialer == (if leb local peer then local else peer)

-- Whether a new connection replaces one that is alive.
unfoldable pub keep_new : ℕ → ℕ → ℕ → ℕ → Registered → Bool
keep_new local peer generation dialer existing =
    if ltb existing.generation generation
    then true
    else if ltb generation existing.generation
    then false
    else if dialer == existing.dialer
    then true
    else dialed_by_smaller local peer dialer

module _ (D : DashMap numbers Registered) where
  pub record Connections : Type 0 where
    pub local : ℕ
    pub conns : D.Map
    pub closed : List ℕ

  abbrev pub is_closed : ℕ → Connections → Bool
  is_closed conn s = elem conn s.closed

  unfoldable pub close : ℕ → Connections → Connections
  close conn s = record s { closed = conn ∷ s.closed }

  abbrev live_of : Option Registered → Connections → Option ℕ
  live_of none s = none
  live_of (some r) s = if is_closed r.conn s then none else some r.conn

  unfoldable pub live : ℕ → Connections → Option ℕ
  live node s = live_of (D.get s.conns node) s

  abbrev pub put : ℕ → Registered → Connections → Connections
  put peer r s = record s { conns = D.insert s.conns peer r }

  abbrev pub register_over :
      ℕ → Registered → Option Registered → Connections → Connections × Bool × List PeerEvent
  register_over peer r none s = (put peer r s, true, [])
  register_over peer r (some existing) s =
      if is_closed existing.conn s
      then (put peer r s, true, [])
      else if keep_new s.local peer r.generation r.dialer existing
      then (put peer r (close existing.conn s), true, disconnected peer existing.generation ∷ [])
      else (s, false, [])

  unfoldable pub register : ℕ → Registered → Connections → Connections × Bool × List PeerEvent
  unfolding keep_new close
  register peer r s = register_over peer r (D.get s.conns peer) s

  abbrev unregister_found : ℕ → ℕ → Option Registered → Connections → Connections × List PeerEvent
  unregister_found peer id none s = (s, [])
  unregister_found peer id (some r) s =
      if r.conn == id
      then (record s { conns = D.remove s.conns peer }, disconnected peer r.generation ∷ [])
      else (s, [])

  unfoldable pub unregister : ℕ → ℕ → Connections → Connections × List PeerEvent
  unregister peer id s = unregister_found peer id (D.get s.conns peer) s

  abbrev forget_found : ℕ → ℕ → Option Registered → Connections → Connections
  forget_found node generation none s = s
  forget_found node generation (some r) s =
      if leb r.generation generation
      then close r.conn (record s { conns = D.remove s.conns node })
      else s

  -- The part of `forget` that is about connections.
  unfoldable pub forget : ℕ → ℕ → Connections → Connections
  unfolding close
  forget node generation s = forget_found node generation (D.get s.conns node) s

  -- What `accept` and `connection` do once the hello of the peer was read: a connection that is not kept
  -- is closed.
  unfoldable pub settle : ℕ → Registered → Connections → Connections × List PeerEvent
  unfolding register close
  settle peer r s =
      let (s', kept, es) = register peer r s in (if kept then s' else close r.conn s', es)
