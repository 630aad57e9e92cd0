-- ===== src/Runtime/Registry/Counted.antt =====
-- Who is registered is who is strongly referenced.
use zestors.Base.{
  ℕ, suc, ◌+◌, ◌-◌, ◌<◌, ◌≡◌, refl, sym, ◌∙◌, ap, inl, inr, Bool, true, false, ◌&&◌, none, some,
  returns, ◌==◌, ==_refl, ==_iff, subst, if◌then◌else◌, Bool-cases, Option-cases, arith,
}
use zestors.External.Papaya.{HashMap}
use zestors.Runtime.Registry.{
  Counts, Process, with_channel, create, incr_strong_count, decr_strong_count, is_permanently_dead,
  upgrade, clone, drop, spawn, exit, new,
}

module _ (H : HashMap ℕ) where
  -- A name leads to a channel of that name that is strongly referenced, and every such channel is registered.
  pub record IsCounted (p : Process H) : Type 0 where
    pub leads :
        (n c : ℕ)
        → H.get p.registry n ≡ some c
        → (c < p.made) × ((p.channels c).name ≡ n) × (0 < (p.channels c).strong)
    pub found :
        (c : ℕ)
        → c < p.made
        → 0 < (p.channels c).strong
        → H.get p.registry (p.channels c).name ≡ some c

  -- What an owner of references and addresses can do. A reference is cloned, dropped and spawned on while it
  -- is held; an address is upgraded while the channel is still strongly referenced, or else is refused.
  pub data Move (p : Process H) : Process H → Type 0 where
    creates : (name : ℕ) → Move p (create H name p).0
    clones : (c : ℕ) → c < p.made → 0 < (p.channels c).strong → Move p (clone H c p)
    upgrades : (c : ℕ) → c < p.made → 0 < (p.channels c).strong → Move p (upgrade H c p).0
    refused : (c : ℕ) → (upgrade H c p).1 ≡ false → Move p (upgrade H c p).0
    drops :
        (c : ℕ) {q : Process H}
        → c < p.made
        → 0 < (p.channels c).strong
        → drop H c p ≡ returns q
        → Move p q
    spawns : (c : ℕ) → c < p.made → 0 < (p.channels c).strong → Move p (spawn H c p)
    exits : (c : ℕ) → Move p (exit H c p)

  module _ (p : Process H) (v : IsCounted p) where
    -- A channel gets a count that is not zero, and keeps its name.
    recounted :
        (c : ℕ) (x : Counts)
        → x.name ≡ (p.channels c).name
        → 0 < x.strong
        → c < p.made
        → 0 < (p.channels c).strong
        → IsCounted (with_channel H c x p)
    recounted c x e h k t = record {
      leads = λ n d g. elim (Bool-cases (c == d)) [
        | inl here ↦
            let (a, b, s) = v.leads n d g in
            let at : c ≡ d = (==_iff c d).0 here in
            (a, rw here (e ∙ (ap (λ i. (p.channels i).name) at ∙ b)), rw here h)
        | inr other ↦ let (a, b, s) = v.leads n d g in (a, rw other b, rw other s)
      ];
      found = λ d a s. elim (Bool-cases (c == d)) [
        | inl here ↦
            let at : c ≡ d = (==_iff c d).0 here in
            rw here (ap (H.get p.registry) e ∙ (v.found c k t ∙ ap some at))
        | inr other ↦
            rw other (v.found d a (subst (λ b. 0 < (if b then x else p.channels d).strong) other s))
      ];
    }

    -- A channel whose count and name stay as they are.
    marked :
        (c : ℕ) (x : Counts)
        → x.name ≡ (p.channels c).name
        → x.strong ≡ (p.channels c).strong
        → IsCounted (with_channel H c x p)
    marked c x e h = record {
      leads = λ n d g. elim (Bool-cases (c == d)) [
        | inl here ↦
            let (a, b, s) = v.leads n d g in
            let at : c ≡ d = (==_iff c d).0 here in
            (
              a,
              rw here (e ∙ (ap (λ i. (p.channels i).name) at ∙ b)),
              rw here (subst (λ t. 0 < t) (sym (h ∙ ap (λ i. (p.channels i).strong) at)) s),
            )
        | inr other ↦ let (a, b, s) = v.leads n d g in (a, rw other b, rw other s)
      ];
      found = λ d a s. elim (Bool-cases (c == d)) [
        | inl here ↦
            let at : c ≡ d = (==_iff c d).0 here in
            let s' : 0 < x.strong =
              subst (λ b. 0 < (if b then x else p.channels d).strong) here s in
            rw here (
              ap (H.get p.registry) (e ∙ ap (λ i. (p.channels i).name) at)
              ∙ v.found d a (subst (λ t. 0 < t) (h ∙ ap (λ i. (p.channels i).strong) at) s'))
        | inr other ↦
            rw other (v.found d a (subst (λ b. 0 < (if b then x else p.channels d).strong) other s))
      ];
    }

    -- The last reference is gone, and so is the entry.
    deregistered :
        (c : ℕ)
        → c < p.made
        → 0 < (p.channels c).strong
        → (x : Counts) → x.strong ≡ 0
        → IsCounted
            (record (with_channel H c x p) { registry = H.remove p.registry (p.channels c).name })
    deregistered c a s x z = record {
      leads = λ n d g.
          let other_name : ((p.channels c).name == n) ≡ false =
            ground (arith, H.get-remove p.registry (p.channels c).name n) in
          let (b, e, t) =
            v.leads n d (ground (arith, H.get-remove p.registry (p.channels c).name n)) in
          elim (Bool-cases (c == d)) [
            | inl here ↦ absurd (clash c d n ((==_iff c d).0 here) e other_name)
            | inr other ↦ (b, rw other e, rw other t)
          ];
      found = λ d b t. elim (Bool-cases (c == d)) [
        | inl here ↦
            absurd (nothing x z (subst (λ o. 0 < (if o then x else p.channels d).strong) here t))
        | inr other ↦
            let t' : 0 < (p.channels d).strong =
              subst (λ o. 0 < (if o then x else p.channels d).strong) other t in
            let f = v.found d b t' in
            let g = v.found c a s in
            rw other
              (ground (arith, H.get-remove p.registry (p.channels c).name (p.channels d).name))
      ];
    }
      where
        nothing : (x : Counts) → x.strong ≡ 0 → 0 < x.strong → ⊥
        nothing x z h = omega arith

        clash :
            (c d n : ℕ) → c ≡ d → (p.channels d).name ≡ n → ((p.channels c).name == n) ≡ false → ⊥
        clash c d n at e o =
            let same : (p.channels c).name ≡ n = ap (λ i. (p.channels i).name) at ∙ e in
            ground arith

    drop-returns :
        (c : ℕ)
        → c < p.made
        → 0 < (p.channels c).strong
        → (q : Process H) × (drop H c p ≡ returns q) × IsCounted q
    unfolding drop decr_strong_count
    drop-returns c a s =
        let x : Counts = record (p.channels c) { strong = (p.channels c).strong - 1 } in
        elim (Bool-cases ((p.channels c).strong == 1)) [
          | inl last' ↦ (
            record (with_channel H c x p) { registry = H.remove p.registry (p.channels c).name },
            rw (last', v.found c a s) refl,
            deregistered c a s x (ground arith),
          )
          | inr more ↦ (with_channel H c x p, rw more refl, recounted c x refl (ground arith) a s)
        ]

    -- A name that is free gets a new channel.
    abbrev fresh : ℕ → Counts
    fresh name = record { name = name; strong = 1; dead = true }

    created :
        (name : ℕ) (registry : H.Map)
        → H.get p.registry name ≡ none
        → ((j : ℕ) → H.get registry j ≡ (if name == j then some p.made else H.get p.registry j))
        → IsCounted (record {
          made = suc p.made;
          channels = λ j. if p.made == j then fresh name else p.channels j;
          registry = registry;
        })
    created name registry free r = record {
      leads = λ n d g. elim (Bool-cases (name == n)) [
        | inl here ↦
            let at : p.made ≡ d = ground (arith, r n) in
            let same : (p.made == d) ≡ true = (==_iff p.made d).1 at in
            (omega arith, rw same ((==_iff name n).0 here), rw same (omega arith))
        | inr other ↦
            let (a, b, s) = v.leads n d (ground (arith, r n)) in
            let old : (p.made == d) ≡ false = ground arith in (omega arith, rw old b, rw old s)
      ];
      found = λ d a s. elim (Bool-cases (p.made == d)) [
        | inl here ↦ rw here (r name ∙ rw (==_refl name) (ap some ((==_iff p.made d).0 here)))
        | inr other ↦
            let s' : 0 < (p.channels d).strong =
              subst (λ b. 0 < (if b then fresh name else p.channels d).strong) other s in
            let f = v.found d (older d a other) s' in
            rw other (r (p.channels d).name ∙ ground arith)
      ];
    }
      where
        older : (d : ℕ) → d < suc p.made → (p.made == d) ≡ false → d < p.made
        older d a o = ground arith

    create-IsCounted : (name : ℕ) → IsCounted (create H name p).0
    unfolding create
    create-IsCounted name = elim (Option-cases (H.get p.registry name)) [
      | inl free ↦
          rw (H.try_insert-free p.registry name p.made, free)
            (created name (H.try_insert p.registry name p.made).0 free
              (λ j. H.get-try_insert p.registry name p.made j ∙ rw free refl))
      | inr (c, taken) ↦ rw (H.try_insert-free p.registry name p.made, taken) v
    ]

    incr-IsCounted :
        (c : ℕ) → c < p.made → 0 < (p.channels c).strong → IsCounted (incr_strong_count H c p)
    unfolding incr_strong_count
    incr-IsCounted c a s =
        recounted c (record (p.channels c) { strong = (p.channels c).strong + 1 }) refl
          (omega arith) a s

    upgrade-held : (c : ℕ) → c < p.made → 0 < (p.channels c).strong → IsCounted (upgrade H c p).0
    unfolding upgrade is_permanently_dead
    upgrade-held c a s =
        let alive : ((p.channels c).dead && (p.channels c).strong == 0) ≡ false = ground arith in
        rw alive (incr-IsCounted c a s)

    abbrev result_of : Process H × Bool → Bool
    result_of (q, b) = b

    upgrade-refused : (c : ℕ) → (upgrade H c p).1 ≡ false → IsCounted (upgrade H c p).0
    unfolding upgrade is_permanently_dead
    upgrade-refused c e = elim (Bool-cases ((p.channels c).dead && (p.channels c).strong == 0)) [
      | inl gone ↦ rw gone v
      | inr alive ↦
          let bad : true ≡ false =
            subst
              (λ b. result_of (if b then (p, false) else (incr_strong_count H c p, true)) ≡ false)
              alive e in
          cc
    ]

    exit-IsCounted : (c : ℕ) → IsCounted (exit H c p)
    unfolding exit
    exit-IsCounted c = marked c (record (p.channels c) { dead = true }) refl refl

  spawn-IsCounted :
      (p : Process H)
      → IsCounted p
      → (c : ℕ) → c < p.made
      → 0 < (p.channels c).strong
      → IsCounted (spawn H c p)
  unfolding spawn
  spawn-IsCounted p v c a s =
      let x : Counts = record (p.channels c) { dead = false } in
      let held : 0 < ((with_channel H c x p).channels c).strong = rw (==_refl c) s in
      incr-IsCounted (with_channel H c x p) (marked p v c x refl refl) c a held

  Move-IsCounted : {p q : Process H} → Move p q → IsCounted p → IsCounted q
  unfolding clone
  Move-IsCounted {p} (creates name) v = create-IsCounted p v name
  Move-IsCounted {p} (clones c a s) v = incr-IsCounted p v c a s
  Move-IsCounted {p} (upgrades c a s) v = upgrade-held p v c a s
  Move-IsCounted {p} (refused c e) v = upgrade-refused p v c e
  Move-IsCounted {p} (drops c {q} a s e) v =
      let (r, f, w) = drop-returns p v c a s in subst IsCounted (returned r q (sym f ∙ e)) w
    where
      returned : (r q : Process H) → returns r ≡ returns q → r ≡ q
      returned r q h = cc
  Move-IsCounted {p} (spawns c a s) v = spawn-IsCounted p v c a s
  Move-IsCounted {p} (exits c) v = exit-IsCounted p v c

  pub data Reach : Process H → Type 0 where
    start : Reach (new H)
    later : {p q : Process H} → Reach p → Move p q → Reach q

  new-IsCounted : IsCounted (new H)
  unfolding new
  new-IsCounted = record {
    leads = λ n c g. cc (H.get-new n);
    found = λ c a s. absurd (omega arith);
  }

  Reach-IsCounted : {p : Process H} → Reach p → IsCounted p
  Reach-IsCounted start = new-IsCounted
  Reach-IsCounted (later r m) = Move-IsCounted m (Reach-IsCounted r)

  -- As long as an address is upgraded only while its channel is strongly referenced, or else is refused, a
  -- name is registered exactly while there is a channel of that name with a strong reference, and it
  -- leads to that channel; and to drop a reference never panics: its entry is there.
  pub Reach-drop :
      {p : Process H}
      → Reach p
      → IsCounted p
        × ((c : ℕ)
            → c < p.made
            → 0 < (p.channels c).strong
            → (q : Process H) × (drop H c p ≡ returns q))
  Reach-drop {p} r =
      let v = Reach-IsCounted r in (v, λ c a s. let (q, e, w) = drop-returns p v c a s in (q, e))
