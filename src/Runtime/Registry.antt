-- ===== src/Runtime/Registry.antt =====
-- crates/runtime/src/registry/mod.rs, references/strong.rs and the strong count of channel/data.rs: who is
-- registered, and who is strongly referenced. A channel is the number of channels made before it.
pub mod Counted
pub mod Window
use zestors.Base.{
  ℕ, suc, ◌+◌, ◌-◌, Bool, true, false, not, ◌&&◌, Option, none, some, Run, returns, panics, ◌==◌,
  if◌then◌else◌,
}
use zestors.Base.Maps.{is_some}
use zestors.External.Papaya.{HashMap}

-- The part of a channel that counts here.
pub record Counts : Type 0 where
  pub name : ℕ
  pub strong : ℕ
  pub dead : Bool

module _ (H : HashMap ℕ) where
  pub record Process : Type 0 where
    pub made : ℕ
    pub channels : ℕ → Counts
    pub registry : H.Map

  unfoldable pub new : Process
  new = record {
    made = 0;
    channels = λ c. record { name = 0; strong = 0; dead = true };
    registry = H.new;
  }

  abbrev pub with_channel : ℕ → Counts → Process → Process
  with_channel c x p = record p { channels = λ j. if c == j then x else p.channels j }

  -- A channel whose name is taken is dropped again.
  abbrev pub registered : ℕ → Process → Process → H.Map × Bool → Process × Option ℕ
  registered c before p (registry, true) = (record p { registry = registry }, some c)
  registered c before p (registry, false) = (before, none)

  -- `StrongAddress::create`, with `Registry::register`: the plain address is made first.
  unfoldable pub create : ℕ → Process → Process × Option ℕ
  create name p =
      let c = p.made in
      let p' = record p {
        made = suc c;
        channels =
            λ j. if c == j then record { name = name; strong = 1; dead = true } else p.channels j;
      } in
      registered c p p' (H.try_insert p.registry name c)

  unfoldable pub incr_strong_count : ℕ → Process → Process
  incr_strong_count c p =
      with_channel c (record (p.channels c) { strong = (p.channels c).strong + 1 }) p

  -- Whether the count has just reached zero.
  unfoldable pub decr_strong_count : ℕ → Process → Process × Bool
  decr_strong_count c p = (
    with_channel c (record (p.channels c) { strong = (p.channels c).strong - 1 }) p,
    (p.channels c).strong == 1,
  )

  unfoldable pub is_permanently_dead : ℕ → Process → Bool
  is_permanently_dead c p = (p.channels c).dead && (p.channels c).strong == 0

  -- `from_address_ref`, in one step.
  unfoldable pub upgrade : ℕ → Process → Process × Bool
  unfolding is_permanently_dead incr_strong_count
  upgrade c p = if is_permanently_dead c p then (p, false) else (incr_strong_count c p, true)

  -- `StrongAddress::clone`.
  unfoldable pub clone : ℕ → Process → Process
  unfolding incr_strong_count
  clone c p = incr_strong_count c p

  abbrev pub deregister : ℕ → Process → Run Process
  deregister name p =
      if is_some (H.get p.registry name)
      then returns (record p { registry = H.remove p.registry name })
      else panics

  -- The drop of a `StrongAddress`, with debug assertions.
  unfoldable pub drop : ℕ → Process → Run Process
  unfolding decr_strong_count
  drop c p =
      let (p', last') = decr_strong_count c p in
      if last' then deregister (p.channels c).name p' else returns p'

  -- A task is spawned with an inbox, which holds a reference; and it registers its exit.
  unfoldable pub spawn : ℕ → Process → Process
  unfolding incr_strong_count
  spawn c p = incr_strong_count c (with_channel c (record (p.channels c) { dead = false }) p)

  unfoldable pub exit : ℕ → Process → Process
  exit c p = with_channel c (record (p.channels c) { dead = true }) p
