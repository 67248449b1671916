-- ===== src/Cluster/Proofs/Claims.antt =====
-- About the loop over the node groups: the machines that the groups claim.
use nio.Prelude.{
  ℤ, String, Bool, true, false, List, [], ◌∷◌, ◌++◌, Option, none, some, ◌≡◌, refl, sym, ap, ◌∙◌,
  subst, arith, length, length-append, append_assoc, append-nil, eq_iff,
}
use nio.Prelude.Members.{contains, Distinct, IsWithin, contains-append}
use nio.Prelude.Sort.{contains-sort_strings, Distinct-sort_strings}
use nio.Kube.{Result}
use nio.Api.Core.{Labels}
use nio.Api.Workload.{NixFile}
use nio.Api.Machine.{Machine}
use nio.Api.Cluster.{LabelSelector, NodeGroup, NodeGroupStatus}
use nio.Cluster.Select.{matching_names, matching_machines, select_group_members}
use nio.Cluster.Groups.{
  member_names, as_members, Selection, nothing_selected, Outcome, reached, failed, ◌>>=◌,
  selector_of, with_group, member_files, previous_members, select_group, select_groups,
}
use nio.Cluster.Proofs.Filling.{IsChoice}
use nio.Cluster.Proofs.Selection.{select_group_members-count}

abbrev pub machine_names : List Machine → List String
machine_names [] = []
machine_names (m ∷ ms) = m.name ∷ machine_names ms

-- The members of all groups, in order.
abbrev pub all_members : List NodeGroupStatus → List String
all_members [] = []
all_members (g ∷ gs) = member_names g.members ++ all_members gs

module _ (matches : Labels → Bool) (claimed : List String) where
  matching-IsWithin :
      (ms : List Machine) → IsWithin (matching_names matches claimed ms) (machine_names ms)
  unfolding matching_names
  matching-IsWithin [] s h = h
  matching-IsWithin (m ∷ ms) s h = ground (arith, matching-IsWithin ms s)

  matching-Distinct :
      (ms : List Machine)
      → Distinct (machine_names ms)
      → Distinct (matching_names matches claimed ms)
  unfolding matching_names
  matching-Distinct [] d = tt
  matching-Distinct (m ∷ ms) (out, d) =
      ground (arith, matching-Distinct ms d, matching-IsWithin ms m.name)

  matching-unclaimed :
      (ms : List Machine) (s : String)
      → contains (matching_names matches claimed ms) s ≡ true
      → contains claimed s ≡ false
  unfolding matching_names
  matching-unclaimed [] s h = cc
  matching-unclaimed (m ∷ ms) s h = ground (arith, matching-unclaimed ms s, eq_iff m.name s)

-- The members of a group are distinct candidates, with or without a count.
members-IsChoice :
    (candidates prev : List String) (count : Option ℤ)
    → Distinct candidates
    → IsChoice candidates (select_group_members candidates prev count).0
unfolding select_group_members
members-IsChoice candidates prev none d = record { distinct = d; within = λ s h. h }
members-IsChoice candidates prev (some count) d =
    (select_group_members-count candidates prev count d).0

Distinct-append :
    (xs ys : List String)
    → Distinct xs
    → Distinct ys
    → ((s : String) → contains ys s ≡ true → contains xs s ≡ false)
    → Distinct (xs ++ ys)
Distinct-append [] ys d e apart = e
Distinct-append (x ∷ xs) ys (out, d) e apart = (
  ground (arith, contains-append xs ys x, apart x, eq_iff x x),
  Distinct-append xs ys d e (λ s h. ground (arith, apart s h)),
)

all_members-append :
    (gs : List NodeGroupStatus) (g : NodeGroupStatus)
    → all_members (gs ++ (g ∷ [])) ≡ all_members gs ++ member_names g.members
all_members-append [] g = append-nil (member_names g.members)
all_members-append (h ∷ gs) g =
    ap (λ x. member_names h.members ++ x) (all_members-append gs g)
    ∙ sym (append_assoc (member_names h.members) (all_members gs) (member_names g.members))

names_of_members : (names : List String) → member_names (as_members names) ≡ names
names_of_members [] = refl
names_of_members (n ∷ names) = ap (λ x. n ∷ x) (names_of_members names)

bind-reached :
    {A B : Type 0} (o : Outcome A) (f : A → Outcome B) (b : B)
    → (o >>= f) ≡ reached b
    → (a : A) × (o ≡ reached a) × (f a ≡ reached b)
bind-reached (reached a) f b h = (a, refl, h)
bind-reached (failed reason e) f b h = cc

-- No machine is claimed twice, and the claims are the members of the groups.
pub record IsClaim (machines : List Machine) (sel : Selection) : Type 0 where
  pub distinct : Distinct sel.claimed
  pub listed : IsWithin sel.claimed (machine_names machines)
  pub members : all_members sel.group_statuses ≡ sel.claimed
  pub total : sel.total_members ≡ length sel.claimed

module _ (machines : List Machine) (names : Distinct (machine_names machines)) where
  candidates-Distinct :
      (matches : Labels → Bool) (claimed : List String)
      → Distinct (matching_machines machines matches claimed)
  unfolding matching_machines
  candidates-Distinct matches claimed =
      Distinct-sort_strings _ (matching-Distinct matches claimed machines names)

  -- A member of a group that is selected now is a listed machine that is not claimed yet.
  member-free :
      (matches : Labels → Bool) (claimed prev : List String) (count : Option ℤ) (s : String)
      → contains (select_group_members (matching_machines machines matches claimed) prev count).0 s
        ≡ true
      → (contains claimed s ≡ false) × (contains (machine_names machines) s ≡ true)
  unfolding matching_machines
  member-free matches claimed prev count s h =
      let choice =
        members-IsChoice (matching_machines machines matches claimed) prev count
          (candidates-Distinct matches claimed) in
      let m =
        sym (contains-sort_strings (matching_names matches claimed machines) s)
        ∙ choice.within s h in
      (
        matching-unclaimed matches claimed machines s m,
        matching-IsWithin matches claimed machines s m,
      )

  with_group-IsClaim :
      (group : NodeGroup) (candidates members : List String) (under : Bool) (files : List NixFile)
      (sel : Selection)
      → Distinct members
      → ((s : String)
          → contains members s ≡ true
          → (contains sel.claimed s ≡ false) × (contains (machine_names machines) s ≡ true))
      → IsClaim machines sel
      → IsClaim machines (with_group group candidates members under files sel)
  unfolding with_group
  with_group-IsClaim group candidates members under files sel d free h = record {
    distinct = Distinct-append sel.claimed members h.distinct d (λ s k. (free s k).0);
    listed = λ s k. ground (arith, contains-append sel.claimed members s, h.listed s, free s);
    members =
        all_members-append sel.group_statuses _
        ∙ ap (λ x. all_members sel.group_statuses ++ x) (names_of_members members)
        ∙ ap (λ x. x ++ members) h.members;
    total = omega (arith, h.total, length-append sel.claimed members);
  }

  reached_group :
      (group : NodeGroup) (candidates members : List String) (under : Bool) (sel next : Selection)
      (files : Outcome (List NixFile))
      → Distinct members
      → ((s : String)
          → contains members s ≡ true
          → (contains sel.claimed s ≡ false) × (contains (machine_names machines) s ≡ true))
      → IsClaim machines sel
      → (files >>= λ fs. reached (with_group group candidates members under fs sel)) ≡ reached next
      → IsClaim machines next
  reached_group group candidates members under sel next (failed reason e) d free h k = cc
  reached_group group candidates members under sel next (reached files) d free h k =
      let same : with_group group candidates members under files sel ≡ next = cc in
      subst (IsClaim machines) same
        (with_group-IsClaim group candidates members under files sel d free h)

  select_group-IsClaim :
      (cluster : String) (previous : List NodeGroupStatus) (matches : Labels → Bool)
      (group : NodeGroup) (sel next : Selection)
      → IsClaim machines sel
      → select_group machines cluster previous matches group sel ≡ reached next
      → IsClaim machines next
  unfolding select_group
  select_group-IsClaim cluster previous matches group sel next h k =
      let candidates = matching_machines machines matches sel.claimed in
      let prev = previous_members previous [] group.name in
      reached_group group candidates (select_group_members candidates prev group.count).0
        (select_group_members candidates prev group.count).1 sel next
        (member_files machines cluster group.values
          (select_group_members candidates prev group.count).0)
        (members-IsChoice candidates prev group.count
          (candidates-Distinct matches sel.claimed)).distinct
        (member-free matches sel.claimed prev group.count) h k

  module _ (as_selector : LabelSelector → Result (Labels → Bool)) (cluster : String)
      (previous : List NodeGroupStatus) where
    groups-IsClaim :
        (groups : List NodeGroup) (sel next : Selection)
        → IsClaim machines sel
        → select_groups as_selector machines cluster previous groups sel ≡ reached next
        → IsClaim machines next
    unfolding select_groups
    groups-IsClaim [] sel next h k = let same : sel ≡ next = cc in subst (IsClaim machines) same h
    groups-IsClaim (group ∷ groups) sel next h k =
        let (matches, _, k₁) =
          bind-reached (selector_of group (as_selector group.selector)) _ next k in
        let (sel₁, chosen, k₂) =
          bind-reached (select_group machines cluster previous matches group sel) _ next k₁ in
        groups-IsClaim groups sel₁ next
          (select_group-IsClaim cluster previous matches group sel sel₁ h chosen) k₂

    -- When the loop over the groups of a cluster gets through, in a namespace whose machines have
    -- distinct names, then no machine is a member of two groups or twice of one, all members are
    -- listed machines, and their total is the one that the phase is computed from.
    pub select_groups-IsClaim :
        (groups : List NodeGroup) (sel : Selection)
        → select_groups as_selector machines cluster previous groups nothing_selected ≡ reached sel
        → Distinct (all_members sel.group_statuses)
          × IsWithin (all_members sel.group_statuses) (machine_names machines)
          × (sel.total_members ≡ length (all_members sel.group_statuses))
    select_groups-IsClaim groups sel k =
        let h =
          groups-IsClaim groups nothing_selected sel
            (record { distinct = tt; listed = λ s e. cc; members = refl; total = refl }) k in
        rw h.members (h.distinct, h.listed, h.total)
