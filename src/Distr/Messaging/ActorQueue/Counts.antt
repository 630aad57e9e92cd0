-- ===== src/Distr/Messaging/ActorQueue/Counts.antt =====
-- receive.rs: the counts of a queue when one message is put in or taken.
use zestors.Base.{
  ℕ, suc, ◌+◌, ◌^◌, ◌≡◌, ◌≤◌, ◌<◌, ◌⊎◌, refl, sym, ap, subst, inl, inr, true, false, List, [], ◌∷◌,
  ◌++◌, length, length-append, ltb, leb, Bool-cases, arith,
}
use zestors.Distr.Messaging.ActorQueue.{
  actor_queue_messages, actor_queue_bytes, Queued, admit, release, Work, ActorQueue, start, take,
}

abbrev pub size : List Work → ℕ
size [] = 0
size (w ∷ ws) = length w.payload + size ws

size-append : (xs ys : List Work) → size (xs ++ ys) ≡ size xs + size ys
size-append [] ys = omega arith
size-append (w ∷ xs) ys = omega (arith, size-append xs ys)

-- A queue's counts are those of what is in it; it holds at most so many messages, and at most so many
-- bytes unless it holds one message.
pub record IsBounded (a : ActorQueue) : Type 0 where
  pub messages : a.queued.messages ≡ length a.queue
  pub bytes : a.queued.bytes ≡ size a.queue
  pub few : length a.queue ≤ actor_queue_messages
  pub small : (size a.queue ≤ actor_queue_bytes) ⊎ (length a.queue ≤ 1)
  pub fits : size a.queue < 2 ^ 64

-- A payload is in memory.
abbrev pub Fits : Work → Type 0
Fits w = length w.payload < 2 ^ 63

pub start-IsBounded : (w : Work) → Fits w → IsBounded (start w)
unfolding start admit
start-IsBounded w f = record {
  messages = ground arith;
  bytes = ground arith;
  few = ground arith;
  small = inr (omega arith);
  fits = omega arith;
}

size-empty : (ws : List Work) → length ws ≡ 0 → size ws ≡ 0
size-empty [] h = refl
size-empty (w ∷ ws) h = absurd (omega arith)

-- What was let in: the first message, or one for which there was room.
admitted :
    (len : ℕ) (q : Queued)
    → (admit len q).1 ≡ true
    → ((admit len q).0.messages ≡ q.messages + 1)
      × ((admit len q).0.bytes ≡ q.bytes + len)
      × ((q.messages ≡ 0)
          ⊎ ((q.messages < actor_queue_messages) × (q.bytes + len ≤ actor_queue_bytes)))
unfolding admit
admitted len q h = elim (Bool-cases (ltb 0 q.messages)) [
  | inl some' ↦
      let more : leb actor_queue_messages q.messages ≡ false = ground arith in
      let room : ltb actor_queue_bytes (q.bytes + len) ≡ false = ground arith in
      (rw (some', more, room) refl, rw (some', more, room) refl, inr (ground arith, ground arith))
  | inr first ↦ (rw first refl, rw first refl, inl (ground arith))
]

module _ (a : ActorQueue) (b : IsBounded a) where
  pub take-IsBounded :
      (w : Work) (rest : List Work) → a.queue ≡ w ∷ rest → IsBounded (take w rest a)
  unfolding release
  take-IsBounded w rest e =
      let n : length a.queue ≡ suc (length rest) = ap length e in
      let s : size a.queue ≡ length w.payload + size rest = ap size e in
      record {
        messages = omega (arith, b.messages, b.few, b.fits);
        bytes = omega (arith, b.bytes, b.few, b.fits);
        few = omega (arith, b.few);
        small = smaller b.small n s;
        fits = omega (arith, b.fits);
      }
    where
      smaller :
          (size a.queue ≤ actor_queue_bytes) ⊎ (length a.queue ≤ 1)
          → length a.queue ≡ suc (length rest)
          → size a.queue ≡ length w.payload + size rest
          → (size rest ≤ actor_queue_bytes) ⊎ (length rest ≤ 1)
      smaller (inl h) n s = inl (omega arith)
      smaller (inr h) n s = inr (omega arith)

  abbrev Room : Work → Type 0
  Room w =
      (a.queued.messages ≡ 0)
      ⊎ ((a.queued.messages < actor_queue_messages)
          × (a.queued.bytes + length w.payload ≤ actor_queue_bytes))

  after_push :
      (w : Work)
      → Fits w
      → Room w
      → (length a.queue + 1 ≤ actor_queue_messages)
        × ((size a.queue + length w.payload ≤ actor_queue_bytes) ⊎ (length a.queue + 1 ≤ 1))
        × (size a.queue + length w.payload < 2 ^ 64)
  after_push w f (inl first) =
      let e = size-empty a.queue (omega (arith, b.messages)) in
      (omega (arith, b.messages), inr (omega (arith, b.messages)), omega arith)
  after_push w f (inr room) =
      (omega (arith, b.messages), inl (omega (arith, b.bytes)), omega (arith, b.bytes))

  pub push-IsBounded :
      (w : Work)
      → Fits w
      → (admit (length w.payload) a.queued).1 ≡ true
      → IsBounded
          (record a { queue = a.queue ++ w ∷ []; queued = (admit (length w.payload) a.queued).0 })
  push-IsBounded w f h =
      let (m, n, room) = admitted (length w.payload) a.queued h in
      let (few', small', fits') = after_push w f room in
      let l : length (a.queue ++ w ∷ []) ≡ length a.queue + 1 =
        omega (arith, length-append {0} a.queue (w ∷ [])) in
      let s : size (a.queue ++ w ∷ []) ≡ size a.queue + length w.payload =
        omega (arith, size-append a.queue (w ∷ [])) in
      record {
        messages = omega (arith, b.messages);
        bytes = omega (arith, b.bytes);
        few = omega arith;
        small =
            subst (λ k. (size (a.queue ++ w ∷ []) ≤ actor_queue_bytes) ⊎ (k ≤ 1)) (sym l)
              (subst (λ k. (k ≤ actor_queue_bytes) ⊎ (length a.queue + 1 ≤ 1)) (sym s) small');
        fits = omega arith;
      }

  -- An admission that is taken back.
  pub undone-IsBounded :
      (w : Work)
      → Fits w
      → (admit (length w.payload) a.queued).1 ≡ true
      → IsBounded
          (record a { queued = release (length w.payload) (admit (length w.payload) a.queued).0 })
  unfolding release
  undone-IsBounded w f h =
      let (m, n, room) = admitted (length w.payload) a.queued h in
      let (few', small', fits') = after_push w f room in
      record {
        messages = omega (arith, b.messages, b.few);
        bytes = omega (arith, b.bytes, b.fits);
        few = b.few;
        small = b.small;
        fits = b.fits;
      }
