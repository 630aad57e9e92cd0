-- ===== src/Runtime/Registry/Window.antt =====
-- crates/runtime/src/spawn.rs and references/strong.rs: an address that is upgraded between the drop of the
-- inbox and the registration of the exit.
use zestors.Base.{
  ℕ, suc, ◌<◌, ◌≡◌, refl, ◌∙◌, true, false, none, some, Run, returns, ◌>>=◌, ◌==◌, ==_refl,
  if◌then◌else◌, arith,
}
use zestors.External.Papaya.{HashMap}
use zestors.Runtime.Registry.{
  Counts, Process, with_channel, create, incr_strong_count, decr_strong_count, is_permanently_dead,
  upgrade, drop,
}
use zestors.Runtime.Registry.Counted.{IsCounted}

module _ (H : HashMap ℕ) where
  -- The inbox of a task was the last reference and is dropped; an address is upgraded before the exit is
  -- registered; a new actor is created under the name; and the upgraded reference is dropped.
  abbrev pub window : ℕ → Process H → Run (Process H)
  window c p = drop H c p >>= λ p1. drop H c (create H (p.channels c).name (upgrade H c p1).0).0

  -- The four states, one after the other.
  module _ (p : Process H) (c : ℕ) where
    abbrev counted_as : ℕ → Counts
    counted_as n = record (p.channels c) { strong = n }

    abbrev unregistered : Process H
    unregistered = record (with_channel H c (counted_as 0) p) {
      registry = H.remove p.registry (p.channels c).name;
    }

    abbrev upgraded : Process H
    upgraded = record unregistered {
      channels = λ j. if c == j then counted_as 1 else unregistered.channels j;
    }

    abbrev replaced : Process H
    replaced = record upgraded {
      made = suc p.made;
      channels = λ j.
          if p.made == j
          then record { name = (p.channels c).name; strong = 1; dead = true }
          else upgraded.channels j;
      registry = (H.try_insert upgraded.registry (p.channels c).name p.made).0;
    }

    abbrev final : Process H
    final = record replaced {
      channels = λ j. if c == j then counted_as 0 else replaced.channels j;
      registry = H.remove replaced.registry (p.channels c).name;
    }

    module _ (v : IsCounted H p) (a : c < p.made) (s : (p.channels c).strong ≡ 1)
        (d : (p.channels c).dead ≡ false) where
      there : H.get p.registry (p.channels c).name ≡ some c
      there = v.found c a (omega arith)

      drops_last : drop H c p ≡ returns unregistered
      unfolding drop decr_strong_count
      drops_last = rw (s, there) refl

      upgrades : (upgrade H c unregistered).0 ≡ upgraded
      unfolding upgrade is_permanently_dead incr_strong_count
      upgrades = rw (==_refl c, d) refl

      free : H.get upgraded.registry (p.channels c).name ≡ none
      free =
          H.get-remove p.registry (p.channels c).name (p.channels c).name
          ∙ rw (==_refl (p.channels c).name) refl

      creates : (create H (p.channels c).name upgraded).0 ≡ replaced
      unfolding create
      creates = rw (H.try_insert-free upgraded.registry (p.channels c).name p.made, free) refl

      taken : H.get replaced.registry (p.channels c).name ≡ some p.made
      taken =
          H.get-try_insert upgraded.registry (p.channels c).name p.made (p.channels c).name
          ∙ rw (free, ==_refl (p.channels c).name) refl

      drops_again : drop H c replaced ≡ returns final
      unfolding drop decr_strong_count
      drops_again =
          let other : (p.made == c) ≡ false = ground arith in rw (other, ==_refl c, taken) refl

  -- An actor that has a name, runs and is referenced by nothing but its inbox: when its task has ended and
  -- dropped the inbox, but not yet registered the exit, its address can be upgraded, although it is no
  -- longer registered. An actor that is then created under its name is deregistered when the upgraded
  -- reference is dropped, although it is strongly referenced.
  pub window_deregisters :
      (p : Process H) (c : ℕ)
      → IsCounted H p
      → c < p.made
      → (p.channels c).strong ≡ 1
      → (p.channels c).dead ≡ false
      → (q : Process H) × (window c p ≡ returns q)
        × ((q.channels p.made).strong ≡ 1)
        × ((q.channels p.made).name ≡ (p.channels c).name)
        × (H.get q.registry (p.channels c).name ≡ none)
  window_deregisters p c v a s d =
      let other : (c == p.made) ≡ false = ground arith in
      (
        final p c,
        rw (drops_last p c v a s d, upgrades p c v a s d, creates p c v a s d)
            (drops_again p c v a s d),
        rw (other, ==_refl p.made) refl,
        rw (other, ==_refl p.made) refl,
        H.get-remove (replaced p c).registry (p.channels c).name (p.channels c).name
            ∙ rw (==_refl (p.channels c).name) refl,
      )
