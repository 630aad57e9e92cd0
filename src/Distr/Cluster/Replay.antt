-- ===== src/Distr/Cluster/Replay.antt =====
-- crates/distr/src/cluster/state.rs: a subscriber that starts from a snapshot and follows the events sees
-- the list of members.
pub mod Mutators
pub mod Run
use zestors.Base.{
  ℕ, ◌≡◌, ◌≢◌, ◌⊎◌, inl, inr, refl, ap, subst, ◌∙◌, Bool, true, false, not, ◌&&◌, ◌||◌, Option,
  none, some, List, [], ◌∷◌, ◌++◌, elem, ◌==◌, if◌then◌else◌, Bool-cases, Option-cases, arith,
}
use zestors.Base.Maps
use zestors.Base.Maps.{
  is_some, include, without, get-insert, get-remove, elem-include, elem-without, Entries,
  Entries-insert, Entries-remove, Entries-get,
}
use zestors.Distr.Cluster.Member.{
  Member, eq, eq→≡, eq_refl, is_member, ClusterEvent, ClusterSnapshot, up, left, failed,
  unreachable, reachable,
}
use zestors.Distr.Cluster.State.{
  MemberList, member, snapshot, member_up, member_unreachable, member_reachable, member_left,
  member_failed, member_renamed, set_local, departed, cut_off, restored, is_reachable,
  snapshot_is_reachable,
}

-- A change to the list: a call of one of the mutators.
pub data Change : Type 0 where
  came failing : Member → Change
  lost_contact found_again : ℕ → Change
  said_goodbye : ℕ → ℕ → Change
  replaced : Member → Member → Change
  set_to : Member → Change

unfoldable pub apply : Change → MemberList → MemberList × List ClusterEvent
apply (came m) s = member_up m s
apply (failing m) s = member_failed m s
apply (lost_contact n) s = let (s', m, es) = member_unreachable n s in (s', es)
apply (found_again n) s = let (s', m, es) = member_reachable n s in (s', es)
apply (said_goodbye n g) s = let (s', m, es) = member_left n g s in (s', es)
apply (replaced b a) s = member_renamed b a s
apply (set_to m) s = (set_local m s, [])

unfoldable pub run : List Change → MemberList → MemberList × List ClusterEvent
unfolding apply
run [] s = (s, [])
run (c ∷ cs) s = let (s', es) = apply c s in let (t, rest) = run cs s' in (t, es ++ rest)

-- Every member is under its name, and only members are unreachable.
pub record IsWellFormed (s : MemberList) : Type 0 where
  pub keyed : Entries (λ k m. m.name ≡ k) s.members
  pub known : (n : ℕ) → elem n s.unreachable ≡ true → is_some (Maps.get n s.members) ≡ true

-- What a subscriber has gathered.
pub record View : Type 0 where
  pub member_at : ℕ → Option Member
  pub out_of_reach : ℕ → Bool

unfoldable pub observe : View → ClusterEvent → View
observe v (up m) = record {
  member_at = λ n. if m.name == n then some m else v.member_at n;
  out_of_reach = λ n. not (m.name == n) && v.out_of_reach n;
}
observe v (left m) = record {
  member_at = λ n. if m.name == n then none else v.member_at n;
  out_of_reach = λ n. not (m.name == n) && v.out_of_reach n;
}
observe v (failed m) = record {
  member_at = λ n. if m.name == n then none else v.member_at n;
  out_of_reach = λ n. not (m.name == n) && v.out_of_reach n;
}
observe v (unreachable m) = record v { out_of_reach = λ n. m.name == n || v.out_of_reach n }
observe v (reachable m) = record v { out_of_reach = λ n. not (m.name == n) && v.out_of_reach n }

abbrev pub observe_all : View → List ClusterEvent → View
observe_all v [] = v
observe_all v (e ∷ es) = observe_all (observe v e) es

-- The view is the list.
pub record Shows (v : View) (s : MemberList) : Type 0 where
  pub same_member : (n : ℕ) → v.member_at n ≡ Maps.get n s.members
  pub same_contact : (n : ℕ) → v.out_of_reach n ≡ elem n s.unreachable

-- An event is news to the one who has gathered the view.
abbrev pub IsNews : View → ClusterEvent → Type 0
IsNews v (up m) = v.member_at m.name ≢ some m
IsNews v (left m) = v.member_at m.name ≡ some m
IsNews v (failed m) = v.member_at m.name ≡ some m
IsNews v (unreachable m) = (v.member_at m.name ≡ some m) × (v.out_of_reach m.name ≡ false)
IsNews v (reachable m) = (v.member_at m.name ≡ some m) × (v.out_of_reach m.name ≡ true)

abbrev pub AllNews : View → List ClusterEvent → Type 0
AllNews v [] = Unit
AllNews v (e ∷ es) = IsNews v e × AllNews (observe v e) es

-- A node that replaces another has its name, as foca promises of `Rename`.
abbrev pub KeepsName : Change → Type 0
KeepsName (replaced b a) = a.name ≡ b.name
KeepsName c = Unit

-- What one change must do for a subscriber.
pub record Followed (v : View) (r : MemberList × List ClusterEvent) : Type 0 where
  pub well : IsWellFormed r.0
  pub shows : Shows (observe_all v r.1) r.0
  pub news : AllNews v r.1
