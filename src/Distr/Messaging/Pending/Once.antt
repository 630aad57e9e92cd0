-- ===== src/Distr/Messaging/Pending/Once.antt =====
-- A call is answered at most once, however the operations are interleaved: the loops of `fail_node` and of
-- `fail_all` are steps of their own here, for any calls.
use zestors.Base.{
  ℕ, ◌<◌, ◌≡◌, refl, inl, inr, Bool, true, false, Option, none, some, Result, err, List, [], ◌∷◌,
  ◌++◌, elem, Bool-cases, arith,
}
use zestors.External.DashMap.{DashMap}
use zestors.External.HashModels.{numbers}
use zestors.Distr.Bytes.{Bytes}
use zestors.Distr.Frame.{RemoteError}
use zestors.Distr.Messaging.Pending.{
  ClusterReplyError, Answer, PendingCall, map_err, Pending, new, expect, remove, answer_if, went_to,
  complete, fail_one, fail_any, disconnected,
}

-- The channels that were answered.
abbrev pub channels : List Answer → List ℕ
channels [] = []
channels ((r, a) ∷ as') = r ∷ channels as'

pub channels-append : (as' bs : List Answer) → channels (as' ++ bs) ≡ channels as' ++ channels bs
channels-append [] bs = refl
channels-append ((r, a) ∷ as') bs = ground (arith, channels-append as' bs)

-- No channel is answered twice.
abbrev pub Once : List Answer → Type 0
Once [] = Unit
Once ((r, a) ∷ as') = (elem r (channels as') ≡ false) × Once as'

pub data Action : Type 0 where
  expects : ℕ → ℕ → Action
  drops : ℕ → Action
  completes : ℕ → ℕ → Result Bytes RemoteError → Action
  fails_one : ℕ → ℕ → Action
  fails_any : ℕ → Action

module _ (D : DashMap numbers PendingCall) where
  unfoldable pub act : Action → Pending D → Pending D × List Answer
  act (expects id node) p = (expect D id node p, [])
  act (drops id) p = (remove D id p, [])
  act (completes node id result) p = complete D node id result p
  act (fails_one node id) p = fail_one D node id p
  act (fails_any id) p = fail_any D id p

  -- The answers, the latest first.
  unfoldable pub run : List Action → Pending D → List Answer → Pending D × List Answer
  unfolding act
  run [] p log = (p, log)
  run (a ∷ as') p log = let (p', new') = act a p in run as' p' (new' ++ log)

  -- Each call that waits has a channel of its own that was not answered, and no channel was answered twice.
  record Owed (p : Pending D) (log : List Answer) : Type 0 where
    made : (id : ℕ) (c : PendingCall) → D.get p.calls id ≡ some c → c.reply < p.next_reply
    waits :
        (id : ℕ) (c : PendingCall) → D.get p.calls id ≡ some c → elem c.reply (channels log) ≡ false
    own :
        (i j : ℕ) (c b : PendingCall)
        → D.get p.calls i ≡ some c
        → D.get p.calls j ≡ some b
        → c.reply ≡ b.reply
        → i ≡ j
    old : (r : ℕ) → elem r (channels log) ≡ true → r < p.next_reply
    once : Once log

  dropped-Owed :
      (id : ℕ) (p : Pending D) (log : List Answer)
      → Owed p log
      → Owed (record p { calls = D.remove p.calls id }) log
  dropped-Owed id p log o = record {
    made = λ i c h. o.made i c (ground (arith, D.get-remove p.calls id i));
    waits = λ i c h. o.waits i c (ground (arith, D.get-remove p.calls id i));
    own = λ i j c b h k e.
        o.own i j c b (ground (arith, D.get-remove p.calls id i))
          (ground (arith, D.get-remove p.calls id j)) e;
    old = o.old;
    once = o.once;
  }

  -- An answer to a call that waits, which is taken out.
  answered-Owed :
      (id : ℕ) (c : PendingCall) (result : Result Bytes ClusterReplyError) (p : Pending D)
      (log : List Answer)
      → D.get p.calls id ≡ some c
      → Owed p log
      → Owed (record p { calls = D.remove p.calls id }) ((c.reply, result) ∷ log)
  answered-Owed id c result p log g o = record {
    made = (dropped-Owed id p log o).made;
    waits = λ i b h.
        let h' : D.get p.calls i ≡ some b = ground (arith, D.get-remove p.calls id i) in
        ground (arith, o.waits i b h', o.own i id b c h' g, D.get-remove p.calls id i);
    own = (dropped-Owed id p log o).own;
    old = λ r h. ground (arith, o.old r, o.made id c g);
    once = (o.waits id c g, o.once);
  }

  answer_if-Owed :
      (test : PendingCall → Bool) (id : ℕ) (result : Result Bytes ClusterReplyError)
      (call : Option PendingCall) (p : Pending D) (log : List Answer)
      → D.get p.calls id ≡ call
      → Owed p log
      → Owed (answer_if D test id result call p).0 ((answer_if D test id result call p).1 ++ log)
  answer_if-Owed test id result none p log g o = o
  answer_if-Owed test id result (some c) p log g o = elim (Bool-cases (test c)) [
    | inl holds ↦ rw holds (answered-Owed id c result p log g o)
    | inr fails ↦ rw fails o
  ]

  expect-Owed :
      (id node : ℕ) (p : Pending D) (log : List Answer) → Owed p log → Owed (expect D id node p) log
  unfolding expect
  expect-Owed id node p log o =
      let call : PendingCall = record { node = node; reply = p.next_reply } in
      record {
        made = λ i c h. ground (arith, o.made i c, D.get-insert p.calls id call i);
        waits = λ i c h. ground (
          arith,
          o.waits i c,
          o.old c.reply,
          D.get-insert p.calls id call i,
          Bool-cases (elem c.reply (channels log)),
        );
        own = λ i j c b h k e. ground (
          arith,
          o.own i j c b,
          o.made i c,
          o.made j b,
          D.get-insert p.calls id call i,
          D.get-insert p.calls id call j,
        );
        old = λ r h. ground (arith, o.old r);
        once = o.once;
      }

  act-Owed :
      (a : Action) (p : Pending D) (log : List Answer)
      → Owed p log
      → Owed (act a p).0 ((act a p).1 ++ log)
  unfolding act complete fail_one fail_any remove
  act-Owed (expects id node) p log o = expect-Owed id node p log o
  act-Owed (drops id) p log o = dropped-Owed id p log o
  act-Owed (completes node id result) p log o =
      answer_if-Owed (went_to D node) id (map_err result) (D.get p.calls id) p log refl o
  act-Owed (fails_one node id) p log o =
      answer_if-Owed (went_to D node) id (err disconnected) (D.get p.calls id) p log refl o
  act-Owed (fails_any id) p log o =
      answer_if-Owed (λ c. true) id (err disconnected) (D.get p.calls id) p log refl o

  run-Owed :
      (as' : List Action) (p : Pending D) (log : List Answer)
      → Owed p log
      → Owed (run as' p log).0 (run as' p log).1
  unfolding run
  run-Owed [] p log o = o
  run-Owed (a ∷ as') p log o = run-Owed as' (act a p).0 ((act a p).1 ++ log) (act-Owed a p log o)

  new-Owed : Owed (new D) []
  unfolding new
  new-Owed = record {
    made = λ id c h. cc (D.get-new id);
    waits = λ id c h. refl;
    own = λ i j c b h k e. cc (D.get-new i);
    old = λ r h. cc;
    once = tt;
  }

  -- However calls, replies, dropped guards and the rounds of `fail_node` and `fail_all` follow one another,
  -- also under call ids that are used again, no call's channel is answered twice, and no call that
  -- still waits has been answered.
  pub run-Once :
      (as' : List Action) (id : ℕ) (c : PendingCall)
      → Once (run as' (new D) []).1
        × (D.get (run as' (new D) []).0.calls id ≡ some c
            → elem c.reply (channels (run as' (new D) []).1) ≡ false)
  run-Once as' id c = let o = run-Owed as' (new D) [] new-Owed in (o.once, o.waits id c)
