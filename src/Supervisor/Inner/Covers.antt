-- ===== src/Supervisor/Inner/Covers.antt =====
-- What the strategies that stop all children at once keep: a supervisor that is exiting waits for
-- every child that is not dead, and no other supervisor waits for one.
use zestors.Base.{
  ℕ, ◌≡◌, inl, inr, Bool, true, false, ◌||◌, Option, none, some, returns, Flow, break, Bool-cases,
  Run-cases, subst, arith,
}
use zestors.Runtime.Status.{is_exiting, is_dead}
use zestors.Runtime.Inbox.{Inbox, register_exiting}
use zestors.Supervisor.Supervisee.{Supervisee, SuperviseeState, stop}
use zestors.Supervisor.Crates.{Crates}
use zestors.Supervisor.Children.Lookup.{IsWellFormed, child}
use zestors.Supervisor.Children.Loops.{stopped, waits}
use zestors.Supervisor.Inner.{Inner, Left, shutdown, remove_spec, flow_of}
use zestors.Supervisor.Inner.Laws.{
  has, ShutDown, shutdown-ShutDown, Removes, remove_spec-Removes, flow_of-break,
}

-- A child that is not dead is shutting down and waited for.
abbrev pub settled : Option Supervisee → Bool → Bool
settled none waited = true
settled (some s) waited = elim s.state [
  | SuperviseeState.dead ↦ true
  | SuperviseeState.shutting_down ↦ waited
  | _ ↦ false
]

abbrev pub gone : Option Supervisee → Bool
gone none = true
gone (some s) = elim s.state [ SuperviseeState.dead ↦ true | _ ↦ false ]

stopped-settled : (o : Option Supervisee) (b : Bool) → settled (stopped o) (b || waits o) ≡ true
unfolding stop
stopped-settled o b = ground arith

module _ (X : Crates) where
  pub record Covers (i : Inner X) (ex : X.sets.Names) : Type 0 where
    pub well_formed : IsWellFormed X i.supervisees
    pub live : is_dead i.inbox.life.status ≡ false
    pub waited :
        is_exiting i.inbox.life.status ≡ true
        → (j : ℕ) → settled (child X i.supervisees j) (has X ex j) ≡ true
    pub unwaited : is_exiting i.inbox.life.status ≡ false → (j : ℕ) → has X ex j ≡ false

  -- Every child is dead.
  abbrev pub AllGone : Inner X → Type 0
  AllGone i = (j : ℕ) → gone (child X i.supervisees j) ≡ true

  settled-gone : (o : Option Supervisee) → settled o false ≡ true → gone o ≡ true
  settled-gone o h = ground arith

  -- A supervisor that is exiting and waits for no child has none left.
  pub Covers-AllGone :
      (i : Inner X) (ex : X.sets.Names)
      → Covers i ex
      → is_exiting i.inbox.life.status ≡ true
      → flow_of X ex ≡ break
      → AllGone i
  Covers-AllGone i ex c e b j =
      let none_waited = flow_of-break X ex j b in
      settled-gone (child X i.supervisees j) (ground (arith, c.waited e j))

  pub exiting_after :
      (box : Inbox)
      → is_dead box.life.status ≡ false
      → is_exiting (register_exiting box).0.life.status ≡ true
  unfolding is_exiting is_dead register_exiting
  exiting_after box h = ground arith

  is_exiting-live :
      (box : Inbox) → is_exiting box.life.status ≡ true → is_dead box.life.status ≡ false
  unfolding is_exiting is_dead
  is_exiting-live box h = ground arith

  ShutDown-CoversAll :
      (ex : X.sets.Names) (i : Inner X) (r : Inner X × X.sets.Names × Flow)
      → is_dead i.inbox.life.status ≡ false
      → ShutDown X i ex (returns r)
      → Covers r.0 r.1
  ShutDown-CoversAll ex i (i', ex', flow) live (w', after, waited', box, ends) =
      let now_exiting : is_exiting i'.inbox.life.status ≡ true =
        ground (arith, exiting_after i.inbox live) in
      record {
        well_formed = w';
        live = is_exiting-live i'.inbox now_exiting;
        waited = λ e j.
            ground
              (arith, after j, waited' j, stopped-settled (child X i.supervisees j) (has X ex j));
        unwaited = λ e j. ground arith;
      }

  -- A shutdown of a supervisor that is not dead covers it, whatever it waited for before, and ends it only
  -- if every child is dead.
  pub shutdown-Covers :
      (ex : X.sets.Names) (i : Inner X)
      → IsWellFormed X i.supervisees
      → is_dead i.inbox.life.status ≡ false
      → (r : Inner X × X.sets.Names × Flow) × (shutdown X ex i ≡ returns r)
        × Covers r.0 r.1
        × (r.2 ≡ break → AllGone r.0)
  shutdown-Covers ex i w live = elim (Run-cases (shutdown X ex i)) [
    | inr p ↦ absurd (subst (ShutDown X i ex) p (shutdown-ShutDown X ex i w))
    | inl (r, p) ↦
        let out = subst (ShutDown X i ex) p (shutdown-ShutDown X ex i w) in
        let c = ShutDown-CoversAll ex i r live out in
        let ended : is_exiting r.0.inbox.life.status ≡ true =
          ground (arith, out.3, exiting_after i.inbox live) in
        (r, p, c, λ b. Covers-AllGone r.0 r.1 c ended (ground (arith, out.4)))
  ]

  -- Removing a spec keeps the invariant.
  pub remove_spec-Covers :
      (init ex : X.sets.Names) (name : ℕ) (i : Inner X)
      → Covers i ex
      → (left : Left X) × (remove_spec X init ex name i ≡ returns left)
        × Covers left.inner left.exiting
        × (left.inner.inbox ≡ i.inbox)
  remove_spec-Covers init ex name i c = elim (Run-cases (remove_spec X init ex name i)) [
    | inr p ↦
        absurd
          (subst (Removes X init ex name i) p (remove_spec-Removes X init ex name i c.well_formed))
    | inl (left, p) ↦
        let (same, after, rest, w', others, fewer, itself) =
          subst (Removes X init ex name i) p (remove_spec-Removes X init ex name i c.well_formed) in
        (
          left,
          p,
          record {
            well_formed = w';
            live = ground (arith, c.live);
            waited = λ e j. ground (arith, c.waited (ground arith) j, after j, others j);
            unwaited = λ e j. ground (arith, c.unwaited (ground arith) j, fewer j);
          },
          ground arith,
        )
  ]

  -- The exit of a child that was waited for.
  pub swap_remove-Covers :
      (ex : X.sets.Names) (name : ℕ) (i : Inner X)
      → Covers i ex
      → gone (child X i.supervisees name) ≡ true
      → Covers i (X.sets.swap_remove ex name).0
  swap_remove-Covers ex name i c g = record {
    well_formed = c.well_formed;
    live = c.live;
    waited = λ e j. ground (arith, c.waited e j, X.sets.elem-swap_remove ex name j);
    unwaited = λ e j. ground (arith, c.unwaited e j, X.sets.elem-swap_remove ex name j);
  }

  -- Only a supervisor that is exiting waits for a child.
  pub Covers-has :
      (i : Inner X) (ex : X.sets.Names) (j : ℕ)
      → Covers i ex
      → has X ex j ≡ true
      → is_exiting i.inbox.life.status ≡ true
  Covers-has i ex j c h = elim (Bool-cases (is_exiting i.inbox.life.status)) [
    | inl ending ↦ ending
    | inr running ↦ ground (arith, c.unwaited running j)
  ]
