-- ===== src/Supervisor/OneForAll/Siblings.antt =====
-- The start of a group restart: one sibling is stopped, and joins the group.
use zestors.Base.{
  ℕ, ◌≡◌, refl, sym, ap, ◌≢◌, ◌∙◌, ==_refl, inl, inr, Bool, true, false, ◌&&◌, ◌||◌, none, some,
  ◌==◌, if◌then◌else◌, subst, Bool-cases, arith,
}
use zestors.Supervisor.Supervisee.{Supervisee, stop, is_shutting_down, acquire_restart_permit}
use zestors.Supervisor.Supervisee.Keeps.{stop-spec, permit-spec, permit-state}
use zestors.Supervisor.Crates.{Crates}
use zestors.Supervisor.Children.Lookup.{
  IsWellFormed, child, child-put, put-IsWellFormed, child-name,
}
use zestors.Supervisor.Inner.{Inner, is_never}
use zestors.Supervisor.Inner.Laws.{has, has-insert}
use zestors.Supervisor.Inner.Covers.{settled}
use zestors.Supervisor.OneForAll.{OneForAll, set_child, await_exit, stop_sibling}
use zestors.Supervisor.OneForAll.Cascade.{child_of}

stop-settled :
    (s : Supervisee) (b : Bool)
    → settled (some (stop s).0) (b || is_shutting_down (stop s).1) ≡ true
unfolding stop
stop-settled s b = ground arith

module _ (X : Crates) where
  -- A child that is dead, or whose exit the group restart waits for.
  abbrev pub Halted : OneForAll X → ℕ → Type 0
  Halted c j = settled (child_of X c j) (has X c.restarting j) ≡ true

  -- Whether a child is to be dropped or restarted.
  abbrev pub joined : OneForAll X → ℕ → Bool
  joined c j = has X c.cascade_drop j || has X c.cascade_restart j

  -- What stopping siblings does not undo.
  pub record Grows (c c' : OneForAll X) : Type 0 where
    pub well_formed : IsWellFormed X c'.inner.supervisees
    pub inbox : c'.inner.inbox ≡ c.inner.inbox
    pub exiting : c'.exiting ≡ c.exiting
    pub halted : (j : ℕ) → Halted c j → Halted c' j
    pub joins : (j : ℕ) → joined c j ≡ true → joined c' j ≡ true
    pub absent : (j : ℕ) → child_of X c j ≡ none → child_of X c' j ≡ none
    pub present : (j : ℕ) → child_of X c j ≢ none → child_of X c' j ≢ none

  pub Grows-trans : {c c1 c2 : OneForAll X} → Grows c c1 → Grows c1 c2 → Grows c c2
  Grows-trans a b = record {
    well_formed = b.well_formed;
    inbox = b.inbox ∙ a.inbox;
    exiting = b.exiting ∙ a.exiting;
    halted = λ j h. b.halted j (a.halted j h);
    joins = λ j h. b.joins j (a.joins j h);
    absent = λ j h. b.absent j (a.absent j h);
    present = λ j h. b.present j (a.present j h);
  }

  module _ (now n : ℕ) (s : Supervisee) (c : OneForAll X) (w : IsWellFormed X c.inner.supervisees)
      (there : child_of X c n ≡ some s) where
    named : s.spec.name ≡ n
    named = child-name X c.inner.supervisees n s w there

    -- The state after the child was stopped as `t`, with the sets it joined.
    stopped_as :
        (t : Supervisee) (c' : OneForAll X)
        → t.spec.name ≡ n
        → c'.inner ≡ (set_child X c n (stop t).0).inner
        → c'.exiting ≡ c.exiting
        → ((j : ℕ)
            → has X c'.restarting j
              ≡ (has X c.restarting j || (n == j && is_shutting_down (stop t).1)))
        → ((j : ℕ) → joined c' j ≡ (joined c j || n == j))
        → Grows c c' × Halted c' n × (joined c' n ≡ true)
    stopped_as t c' named' i ex waits join =
        let tn : (stop t).0.spec.name ≡ n = ground (arith, stop-spec t) in
        let after : (j : ℕ)
            → child_of X c' j ≡ (if n == j then some (stop t).0 else child_of X c j) =
          λ j.
            ap (λ k. child X k.supervisees j) i
            ∙ child-put X c.inner.supervisees n (stop t).0 w tn j there in
        let halts : (j : ℕ) → n == j ≡ true → Halted c' j =
          λ j e. ground (arith, after j, waits j, stop-settled t (has X c.restarting j)) in
        (
          record {
            well_formed =
                subst (λ (k : Inner X). IsWellFormed X k.supervisees) (sym i)
                  (put-IsWellFormed X c.inner.supervisees n (stop t).0 w tn);
            inbox = ap (λ (k : Inner X). k.inbox) i;
            exiting = ex;
            halted = λ j h. elim (Bool-cases (n == j)) [
              | inl same ↦ halts j same
              | inr other ↦ ground (arith, after j, waits j)
            ];
            joins = λ j h. ground (arith, join j);
            absent = λ j h. ground (arith, after j);
            present = λ j h. λ e. h (ground (arith, after j));
          },
          halts n (==_refl n),
          ground (arith, join n),
        )

    await-has :
        (b : Bool) (base : OneForAll X) (j : ℕ)
        → has X (await_exit X b n base).restarting j ≡ (has X base.restarting j || (n == j && b))
    await-has true base j = ground (arith, has-insert X base.restarting n j)
    await-has false base j = ground arith

    await-rest :
        (b : Bool) (base : OneForAll X)
        → ((await_exit X b n base).inner ≡ base.inner)
          × ((await_exit X b n base).exiting ≡ base.exiting)
          × ((j : ℕ) → joined (await_exit X b n base) j ≡ joined base j)
    await-rest true base = (refl, refl, λ j. refl)
    await-rest false base = (refl, refl, λ j. refl)

    -- A permit was refused: the child is as it was, but for its restart history.
    denied_as : (t : Supervisee) → t.spec.name ≡ n → t.state ≡ s.state → Grows c (set_child X c n t)
    denied_as t tn same =
        let after : (j : ℕ)
            → child_of X (set_child X c n t) j ≡ (if n == j then some t else child_of X c j) =
          λ j. child-put X c.inner.supervisees n t w tn j there in
        record {
          well_formed = put-IsWellFormed X c.inner.supervisees n t w tn;
          inbox = refl;
          exiting = refl;
          halted = λ j h. ground (arith, after j);
          joins = λ j h. h;
          absent = λ j h. ground (arith, after j);
          present = λ j h. λ e. h (ground (arith, after j));
        }

    pub sibling-Grows :
        let (c', more) = stop_sibling X now n s c in
        Grows c c' × (more ≡ true → Halted c' n × (joined c' n ≡ true))
    unfolding stop_sibling
    sibling-Grows =
        let s' = (acquire_restart_permit now s).0 in
        let named' : s'.spec.name ≡ n = ground (arith, permit-spec now s, named) in
        let b1 = is_shutting_down (stop s).1 in
        let b2 = is_shutting_down (stop s').1 in
        let drops = record (set_child X c n (stop s).0) {
          cascade_drop = X.sets.insert c.cascade_drop n;
        } in
        let restarts = record (set_child X c n (stop s').0) {
          cascade_restart = X.sets.insert c.cascade_restart n;
        } in
        elim (Bool-cases (is_never s.spec.cfg.restart_mode)) [
          | inl never ↦
              let out =
                stopped_as s (await_exit X b1 n drops) named (await-rest b1 drops).0
                  (await-rest b1 drops).1 (await-has b1 drops)
                  (λ j.
                    ground (arith, (await-rest b1 drops).2 j, has-insert X c.cascade_drop n j)) in
              rw never (out.0, λ h. (out.1, out.2))
          | inr keeps ↦ elim (Bool-cases (acquire_restart_permit now s).1) [
            | inl granted ↦
                let out =
                  stopped_as s' (await_exit X b2 n restarts) named' (await-rest b2 restarts).0
                    (await-rest b2 restarts).1 (await-has b2 restarts)
                    (λ j.
                      ground (
                        arith,
                        (await-rest b2 restarts).2 j,
                        has-insert X c.cascade_restart n j,
                      )) in
                rw (keeps, granted) (out.0, λ h. (out.1, out.2))
            | inr denied ↦
                rw (keeps, denied) (denied_as s' named' (permit-state now s), λ h. ground arith)
          ]
        ]
