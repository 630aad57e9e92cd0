-- ===== src/Distr/Cluster/Replay/Mutators.antt =====
-- What each mutator does for a subscriber.
use zestors.Base.{
  ℕ, ◌≡◌, ◌≢◌, inl, inr, refl, ap, subst, ◌∙◌, true, false, Option, none, some, [], elem, ◌==◌,
  Bool-cases, arith,
}
use zestors.Base.Maps
use zestors.Base.Maps.{
  is_some, include, without, get-insert, get-remove, elem-include, elem-without, Entries,
  Entries-insert, Entries-remove, Entries-get, Entries-empty,
}
use zestors.Distr.Cluster.Member.{Member, eq→≡, eq_refl, is_member, up, left, failed}
use zestors.Distr.Cluster.State.{
  MemberList, member_up, member_unreachable, member_reachable, member_left, member_failed,
  member_renamed, set_local, new, departed, cut_off, restored,
}
use zestors.Distr.Cluster.Replay.{
  Change, came, failing, lost_contact, found_again, said_goodbye, replaced, set_to, apply,
  IsWellFormed, View, observe, Shows, KeepsName, Followed,
}

pub is_member-true : (o : Option Member) (m : Member) → is_member o m ≡ true → o ≡ some m
is_member-true none m h = cc
is_member-true (some a) m h = cc (eq→≡ a m h)

pub is_member-false : (o : Option Member) (m : Member) → is_member o m ≡ false → o ≢ some m
is_member-false none m h e = cc
is_member-false (some a) m h e = ground (arith, eq_refl m)

module _ (v : View) (s : MemberList) (w : IsWellFormed s) (sh : Shows v s) where
  stays : Followed v (s, [])
  stays = record { well = w; shows = sh; news = tt }

  -- The list after one more member, and what the subscriber sees of it.
  added :
      (m : Member)
      → IsWellFormed (record s {
        members = Maps.insert m.name m s.members;
        unreachable = without m.name s.unreachable;
      })
  added m = record {
    keyed = Entries-insert (λ k a. a.name ≡ k) s.members m.name m refl w.keyed;
    known = λ n h.
        ground
          (arith, w.known n, get-insert s.members m.name m n, elem-without m.name n s.unreachable);
  }

  Shows-added :
      (m : Member)
      → Shows (observe v (up m)) (record s {
        members = Maps.insert m.name m s.members;
        unreachable = without m.name s.unreachable;
      })
  unfolding observe
  Shows-added m = record {
    same_member = λ n. ground (arith, sh.same_member n, get-insert s.members m.name m n);
    same_contact = λ n. ground (arith, sh.same_contact n, elem-without m.name n s.unreachable);
  }

  member_up-Followed : (m : Member) → Followed v (member_up m s)
  unfolding member_up
  member_up-Followed m = elim (Bool-cases (is_member (Maps.get m.name s.members) m)) [
    | inl old ↦ rw old (record {
      well = record {
        keyed = Entries-insert (λ k a. a.name ≡ k) s.members m.name m refl w.keyed;
        known = λ n h. ground (arith, w.known n, get-insert s.members m.name m n);
      };
      shows = record {
        same_member = λ n. ground (
          arith,
          sh.same_member n,
          is_member-true (Maps.get m.name s.members) m old,
          get-insert s.members m.name m n,
        );
        same_contact = sh.same_contact;
      };
      news = tt;
    })
    | inr new ↦ rw new (record {
      well = added m;
      shows = Shows-added m;
      news =
          (λ h. is_member-false (Maps.get m.name s.members) m new (cc (sh.same_member m.name)), tt);
    })
  ]

  removed :
      (n : ℕ)
      → IsWellFormed
          (record s { members = Maps.remove n s.members; unreachable = without n s.unreachable })
  removed n = record {
    keyed = Entries-remove (λ k a. a.name ≡ k) s.members n w.keyed;
    known =
        λ j h. ground (arith, w.known j, get-remove s.members n j, elem-without n j s.unreachable);
  }

  -- What the subscriber sees of a node that left, and of one that failed.
  Shows-removed :
      (m : Member)
      → Shows (observe v (left m)) (record s {
        members = Maps.remove m.name s.members;
        unreachable = without m.name s.unreachable;
      })
  unfolding observe
  Shows-removed m = record {
    same_member = λ n. ground (arith, sh.same_member n, get-remove s.members m.name n);
    same_contact = λ n. ground (arith, sh.same_contact n, elem-without m.name n s.unreachable);
  }

  Shows-failed :
      (m : Member)
      → Shows (observe v (failed m)) (record s {
        members = Maps.remove m.name s.members;
        unreachable = without m.name s.unreachable;
      })
  unfolding observe
  Shows-failed m = Shows-removed m

  member_failed-Followed : (m : Member) → Followed v (member_failed m s)
  unfolding member_failed
  member_failed-Followed m = elim (Bool-cases (is_member (Maps.get m.name s.members) m)) [
    | inl old ↦ rw old (record {
      well = removed m.name;
      shows = Shows-failed m;
      news = (sh.same_member m.name ∙ is_member-true (Maps.get m.name s.members) m old, tt);
    })
    | inr new ↦ rw new stays
  ]

  -- A member that is found under a name has that name.
  named : (n : ℕ) (m : Member) → Maps.get n s.members ≡ some m → m.name ≡ n
  named n m h = Entries-get (λ k a. a.name ≡ k) s.members n m w.keyed h

  found : (n : ℕ) (m : Member) → Maps.get n s.members ≡ some m → v.member_at m.name ≡ some m
  found n m h = sh.same_member m.name ∙ ap (λ k. Maps.get k s.members) (named n m h) ∙ h

  departed-Followed :
      (n g : ℕ) (o : Option Member)
      → Maps.get n s.members ≡ o
      → Followed v ((departed n g s o).0, (departed n g s o).2)
  departed-Followed n g none h = stays
  departed-Followed n g (some m) h = elim (Bool-cases (m.generation == g)) [
    | inl same ↦ rw same (record {
      well = removed n;
      shows =
          subst
            (λ k. Shows (observe v (left m)) (record s {
              members = Maps.remove k s.members;
              unreachable = without k s.unreachable;
            }))
            (named n m h) (Shows-removed m);
      news = (found n m h, tt);
    })
    | inr other ↦ rw other stays
  ]

  cut_off-Followed :
      (n : ℕ) (o : Option Member)
      → Maps.get n s.members ≡ o
      → Followed v ((cut_off n s o).0, (cut_off n s o).2)
  unfolding observe
  cut_off-Followed n none h = stays
  cut_off-Followed n (some m) h =
      let same : m.name ≡ n = named n m h in
      let well' : IsWellFormed (record s { unreachable = include n s.unreachable }) = record {
        keyed = w.keyed;
        known = λ j k. ground (arith, w.known j, elem-include n j s.unreachable);
      } in
      elim (Bool-cases (elem n s.unreachable)) [
        | inl old ↦ rw old (record {
          well = well';
          shows = record {
            same_member = sh.same_member;
            same_contact = λ j. ground (arith, sh.same_contact j, elem-include n j s.unreachable);
          };
          news = tt;
        })
        | inr new ↦ rw new (record {
          well = well';
          shows = record {
            same_member = sh.same_member;
            same_contact = λ j. ground (arith, sh.same_contact j, elem-include n j s.unreachable);
          };
          news = ((found n m h, ground (arith, sh.same_contact m.name)), tt);
        })
      ]

  restored-Followed :
      (n : ℕ) (o : Option Member)
      → Maps.get n s.members ≡ o
      → Followed v ((restored n s o).0, (restored n s o).2)
  unfolding observe
  restored-Followed n none h = stays
  restored-Followed n (some m) h =
      let same : m.name ≡ n = named n m h in
      let well' : IsWellFormed (record s { unreachable = without n s.unreachable }) = record {
        keyed = w.keyed;
        known = λ j k. ground (arith, w.known j, elem-without n j s.unreachable);
      } in
      elim (Bool-cases (elem n s.unreachable)) [
        | inl old ↦ rw old (record {
          well = well';
          shows = record {
            same_member = sh.same_member;
            same_contact = λ j. ground (arith, sh.same_contact j, elem-without n j s.unreachable);
          };
          news = ((found n m h, ground (arith, sh.same_contact m.name)), tt);
        })
        | inr new ↦ rw new (record {
          well = well';
          shows = record {
            same_member = sh.same_member;
            same_contact = λ j. ground (arith, sh.same_contact j, elem-without n j s.unreachable);
          };
          news = tt;
        })
      ]

  member_renamed-Followed : (b a : Member) → a.name ≡ b.name → Followed v (member_renamed b a s)
  unfolding member_renamed observe
  member_renamed-Followed b a e = elim (Bool-cases (is_member (Maps.get b.name s.members) b)) [
    | inl old ↦ rw old (record {
      well = added a;
      shows = record {
        same_member = λ n. ground (arith, sh.same_member n, get-insert s.members a.name a n);
        same_contact = λ n. ground (arith, sh.same_contact n, elem-without a.name n s.unreachable);
      };
      news = (
        sh.same_member b.name ∙ is_member-true (Maps.get b.name s.members) b old,
        (ground arith, tt),
      );
    })
    | inr new ↦ rw new stays
  ]

  pub apply-Followed : (c : Change) → KeepsName c → Followed v (apply c s)
  unfolding apply member_left member_unreachable member_reachable set_local
  apply-Followed (came m) k = member_up-Followed m
  apply-Followed (failing m) k = member_failed-Followed m
  apply-Followed (lost_contact n) k = cut_off-Followed n (Maps.get n s.members) refl
  apply-Followed (found_again n) k = restored-Followed n (Maps.get n s.members) refl
  apply-Followed (said_goodbye n g) k = departed-Followed n g (Maps.get n s.members) refl
  apply-Followed (replaced b a) k = member_renamed-Followed b a k
  apply-Followed (set_to m) k = record {
    well = record { keyed = w.keyed; known = w.known };
    shows = record { same_member = sh.same_member; same_contact = sh.same_contact };
    news = tt;
  }
