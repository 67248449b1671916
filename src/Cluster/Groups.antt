-- ===== src/Cluster/Groups.antt =====
-- The loop over the node groups in Reconcile: selection, claims, node files.
use nio.Prelude.{
  ℕ, ◌+◌, ℤ, pos, negsuc, String, Bool, false, ◌||◌, List, [], ◌∷◌, ◌++◌, Option, none, some,
  length, ltb, ◌==◌, if◌then◌else◌,
}
use Prim.Native.Nat.{◌-◌, ◌%◌, ◌^◌}
use nio.Kube.{Error, message_of, text, str, wrapped, other, Result, ok, err}
use nio.Api.Core.{Labels}
use nio.Api.Workload.{NixFile}
use nio.Api.Machine.{Machine}
use nio.Api.Cluster.{LabelSelector, NodeGroup, MemberStatus, NodeGroupStatus}
use nio.Api.Names.{reason_selection_complete, reason_invalid_node_file}
use nio.Cluster.Select.{matching_machines, select_group_members}
use nio.Cluster.NodeFile.{render_member_node_file}
use nio.Cluster.Systems.{machine_named}

-- A conversion to int32, which wraps around.
unfoldable pub int32 : ℕ → ℤ
int32 n = let w = n % 2 ^ 32 in if ltb w (2 ^ 31) then pos w else negsuc (2 ^ 32 - 1 - w)

abbrev pub member_names : List MemberStatus → List String
member_names [] = []
member_names (m ∷ ms) = m.name ∷ member_names ms

-- prev[name]: of groups with one name, the last; nil for none.
unfoldable pub previous_members : List NodeGroupStatus → List String → String → List String
previous_members [] found name = found
previous_members (g ∷ gs) found name =
    previous_members gs (if g.name == name then member_names g.members else found) name

-- What the loop has gathered so far.
pub record Selection : Type 0 where
  pub claimed : List String
  pub group_statuses : List NodeGroupStatus
  pub node_files : List NixFile
  pub any_under : Bool
  pub total_members : ℕ

abbrev pub nothing_selected : Selection
nothing_selected = record {
  claimed = [];
  group_statuses = [];
  node_files = [];
  any_under = false;
  total_members = 0;
}

-- The value of a part of Reconcile, or the reason and the error that it passes to `fail`.
pub data Outcome (A : Type 0) : Type 0 where
  reached : A → Outcome A
  failed : String → Error → Outcome A

infixl 5 ◌>>=◌
abbrev pub ◌>>=◌ : {A B : Type 0} → Outcome A → (A → Outcome B) → Outcome B
reached a >>= f = f a
failed reason e >>= f = failed reason e

abbrev file_of : Result NixFile → Outcome NixFile
file_of (ok nf) = reached nf
file_of (err e) = failed reason_invalid_node_file e

-- The members are names of listed machines, so that `byName` has each of them: without one, the
-- code would read through a nil pointer.
abbrev member_file : String → Option String → String → Option Machine → Outcome NixFile
member_file cluster values name none =
    failed reason_invalid_node_file (other (text "nil pointer dereference"))
member_file cluster values name (some m) =
    file_of (render_member_node_file cluster name m.spec.host values)

unfoldable pub member_files :
    List Machine → String → Option String → List String → Outcome (List NixFile)
member_files machines cluster values [] = reached []
member_files machines cluster values (name ∷ names) =
    let rest = member_files machines cluster values names in
    member_file cluster values name (machine_named machines name) >>= λ nf.
    rest >>= λ nfs. reached (nf ∷ nfs)

abbrev pub as_members : List String → List MemberStatus
as_members [] = []
as_members (name ∷ names) = record { name = name; status = "" } ∷ as_members names

abbrev desired_count : Option ℤ → List String → ℤ
desired_count (some count) candidates = count
desired_count none candidates = int32 (length candidates)

-- What a group with the given members adds.
unfoldable pub with_group :
    NodeGroup → List String → List String → Bool → List NixFile → Selection → Selection
with_group group candidates members under files sel = record {
  claimed = sel.claimed ++ members;
  group_statuses =
      sel.group_statuses
      ++ (record {
        name = group.name;
        members = as_members members;
        desired = desired_count group.count candidates;
        selected = int32 (length members);
      }
          ∷ []);
  node_files = sel.node_files ++ files;
  any_under = sel.any_under || under;
  total_members = sel.total_members + length members;
}

-- The body of the loop, once the selector is parsed.
unfoldable pub select_group :
    List Machine
    → String
    → List NodeGroupStatus
    → (Labels → Bool)
    → NodeGroup
    → Selection
    → Outcome Selection
select_group machines cluster previous matches group sel =
    let candidates = matching_machines machines matches sel.claimed in
    let (members, under) =
      select_group_members candidates (previous_members previous [] group.name) group.count in
    member_files machines cluster group.values members >>= λ files.
    reached (with_group group candidates members under files sel)

abbrev pub selector_of : NodeGroup → Result (Labels → Bool) → Outcome (Labels → Bool)
selector_of group (ok matches) = reached matches
selector_of group (err e) =
    failed reason_selection_complete
      (other (wrapped "group %q selector: %w" (str group.name ∷ []) (message_of e)))

unfoldable pub select_groups :
    (LabelSelector → Result (Labels → Bool))
    → List Machine
    → String
    → List NodeGroupStatus
    → List NodeGroup
    → Selection
    → Outcome Selection
select_groups as_selector machines cluster previous [] sel = reached sel
select_groups as_selector machines cluster previous (group ∷ groups) sel =
    selector_of group (as_selector group.selector) >>= λ matches.
    select_group machines cluster previous matches group sel >>= λ next.
    select_groups as_selector machines cluster previous groups next
