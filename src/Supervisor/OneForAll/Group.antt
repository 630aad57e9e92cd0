-- ===== src/Supervisor/OneForAll/Group.antt =====
-- The start of a group restart: every sibling is stopped, and joins the group.
use zestors.Base.{
  ℕ, ◌≡◌, refl, ◌≢◌, ◌∙◌, inl, inr, true, none, some, returns, Flow, continue, break, List, [], ◌∷◌,
  elem, ◌==◌, if◌then◌else◌, Bool-cases, Option-cases, arith,
}
use zestors.Supervisor.Supervisee.{Supervisee}
use zestors.Supervisor.Crates.{Crates}
use zestors.Supervisor.Children.{get_mut}
use zestors.Supervisor.Children.Lookup.{IsWellFormed, get_mut-child}
use zestors.Supervisor.OneForAll.{OneForAll, stop_sibling, stop_siblings}
use zestors.Supervisor.OneForAll.Cascade.{child_of}
use zestors.Supervisor.OneForAll.Siblings.{Grows, Grows-trans, Halted, joined, sibling-Grows}

module _ (X : Crates) where
  module _ (now n : ℕ) (ns : List ℕ) (c : OneForAll X) where
    siblings-absent :
        get_mut X c.inner.supervisees n ≡ returns none
        → stop_siblings X now (n ∷ ns) c ≡ stop_siblings X now ns c
    unfolding stop_siblings
    siblings-absent e = rw (stop_siblings, e) refl

    siblings-found :
        (s : Supervisee)
        → get_mut X c.inner.supervisees n ≡ returns (some s)
        → let (c', more) = stop_sibling X now n s c in
          stop_siblings X now (n ∷ ns) c
          ≡ (if more then stop_siblings X now ns c' else returns (c', break))
    unfolding stop_siblings
    siblings-found s e = rw (stop_siblings, e) refl

  siblings-nil : (now : ℕ) (c : OneForAll X) → stop_siblings X now [] c ≡ returns (c, continue)
  unfolding stop_siblings
  siblings-nil now c = refl

  -- Stopping siblings returns and undoes nothing. If no permit was refused, every one of them is dead or
  -- its exit is waited for, and each is to be dropped or restarted.
  pub stop_siblings-Halted :
      (now : ℕ) (ns : List ℕ) (c : OneForAll X)
      → IsWellFormed X c.inner.supervisees
      → (r : OneForAll X × Flow) × (stop_siblings X now ns c ≡ returns r)
        × Grows X c r.0
        × (r.1 ≡ continue
            → (j : ℕ) → elem j ns ≡ true
            → Halted X r.0 j × (child_of X c j ≢ none → joined X r.0 j ≡ true))
  stop_siblings-Halted now [] c w = (
    (c, continue),
    siblings-nil now c,
    record {
      well_formed = w;
      inbox = refl;
      exiting = refl;
      halted = λ j h. h;
      joins = λ j h. h;
      absent = λ j h. h;
      present = λ j h. h;
    },
    λ h j e. ground arith,
  )
  stop_siblings-Halted now (n ∷ ns) c w = elim (Option-cases (child_of X c n)) [
    | inl absent ↦
        let (r, e, grows, halts) = stop_siblings-Halted now ns c w in
        let none_there : get_mut X c.inner.supervisees n ≡ returns none =
          ground (arith, get_mut-child X c.inner.supervisees n w) in
        (
          r,
          siblings-absent now n ns c none_there ∙ e,
          grows,
          λ h j among. elim (Bool-cases (n == j)) [
            | inl same ↦ (ground (arith, grows.absent j), λ there. absurd (there (ground arith)))
            | inr other ↦ halts h j (ground arith)
          ],
        )
    | inr (s, there) ↦
        let got : get_mut X c.inner.supervisees n ≡ returns (some s) =
          ground (arith, get_mut-child X c.inner.supervisees n w) in
        let step = siblings-found now n ns c s got in
        let (grows1, halts1) = sibling-Grows X now n s c w there in
        let c1 = (stop_sibling X now n s c).0 in
        elim (Bool-cases (stop_sibling X now n s c).1) [
          | inr ends ↦ ((c1, break), step ∙ rw ends refl, grows1, λ h j among. ground arith)
          | inl goes_on ↦
              let (r, e, grows, halts) = stop_siblings-Halted now ns c1 grows1.well_formed in
              (
                r,
                step ∙ rw goes_on e,
                Grows-trans X grows1 grows,
                λ h j among. elim (Bool-cases (n == j)) [
                  | inl same ↦
                      let at : n ≡ j = ground arith in
                      let mine = halts1 goes_on in
                      rw (← at) (grows.halted n mine.0, λ p. grows.joins n mine.1)
                  | inr other ↦
                      let (halted, joins) = halts h j (ground arith) in
                      (halted, λ p. joins (grows1.present j p))
                ],
              )
        ]
  ]
