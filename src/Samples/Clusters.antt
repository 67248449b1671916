-- ===== src/Samples/Clusters.antt =====
-- Tests, and the theorems on clusters at a sample cluster of three machines.
use Prim.Native.String.{◌++◌}
use nio.Prelude.{
  min, ltb, length, pos, String, Bool, true, false, List, [], ◌∷◌, none, some, ◌≡◌, ◌⊎◌, ◌↔◌, ◌&&◌,
  not, is_some, refl, arith, ◌==◌, if◌then◌else◌,
}
use nio.Prelude.Members.{contains, Distinct, IsWithin}
use nio.Prelude.Sort.{insert, sort_strings, Ascending}
use nio.Prelude.Texts.{
  contains_text, elements_from, elements, clean_one, clean_all, joined, is_abs, path_clean,
  path_join,
}
use nio.Prelude.Order.{str_lt}
use nio.Kube.{Result, ok, err}
use nio.Kube.Conditions.{condition_true, condition_false, slice_meta, find_in}
use nio.Kube.Times.{unix_times}
use nio.Api.Workload.{NixCronJob}
use nio.Api.Cluster.{NixCluster}
use nio.Api.Names.{
  condition_ready, condition_stalled, condition_git_synced, condition_underprovisioned,
  cluster_ready, cluster_degraded, member_applied, member_applying, member_failed,
}
use nio.Converge.{converge_stall}
use nio.Render.Paths.{is_safe_path_char, unsafe_char, validate_file_path}
use nio.Cluster.Select.{
  matching_names, matching_machines, keep_one, keep_previous, drop_extras, max_name, top_up, fill,
  wanted, select_kept, select_group_members,
}
use nio.Cluster.NodeFile.{escape_nix_string, values_json, render_member_node_file}
use nio.Cluster.Systems.{machine_named}
use nio.Cluster.Groups.{
  int32, reached, previous_members, member_files, with_group, select_group, select_groups,
}
use nio.Cluster.State.{ClusterSt}
use nio.CronJob.Runs.{latest_run_failed}
use nio.Cluster.Status.{coarse_member_status, cluster_phase}
use nio.Cluster.Converge.{converge_cron_name, desired_converge_cron_job}
use nio.Cluster.Reconcile.{reconcile}
use nio.Cluster.Proofs.Filling.{IsChoice}
use nio.Cluster.Proofs.Selection.{select_group_members-count, select_group_members-sticky}
use nio.Cluster.Proofs.Phases.{cluster_phase-members}
use nio.Cluster.Proofs.Claims.{machine_names, all_members, select_groups-IsClaim}
use nio.Cluster.Proofs.NodePath.{path-render_member_node_file}
use nio.Cluster.Proofs.NodeFile.{read_string, read-escape_nix_string}
use nio.Cluster.Proofs.Removal.{WritesAfter, reconcile-WritesAfter}
use nio.Cluster.Proofs.Conditions.{status_found, set_conditions_lem, conditioned}
use nio.Samples.Lab.{machines, workers, others, sample, every_machine, file, chosen, outcome, on}

abbrev is_ok : {A : Type 0} → Result A → Bool
is_ok (ok a) = true
is_ok (err e) = false

-- The previous member "b" stays, and the vacancy goes to the next name above it.
sticky_run :
    (select_group_members ("a" ∷ "b" ∷ "c" ∷ []) ("b" ∷ []) (some (pos 2))).0 ≡ "b" ∷ "c" ∷ []
unfolding select_group_members select_kept sort_strings insert fill top_up max_name drop_extras
    keep_previous keep_one wanted str_lt
sticky_run = refl

abbrev three : List String
three = "a" ∷ "b" ∷ "c" ∷ []

select_group_members-count_example :
    IsChoice three (select_group_members three ("b" ∷ []) (some (pos 5))).0
    × Ascending (select_group_members three ("b" ∷ []) (some (pos 5))).0
    × (length (select_group_members three ("b" ∷ []) (some (pos 5))).0
        ≡ min (wanted (pos 5)) (length three))
    × ((select_group_members three ("b" ∷ []) (some (pos 5))).1
        ≡ ltb (length three) (wanted (pos 5)))
select_group_members-count_example =
    select_group_members-count three ("b" ∷ []) (pos 5) (refl, (refl, (refl, tt)))

two : wanted (pos 2) ≡ 2
unfolding wanted
two = refl

fits : length (keep_previous three [] ("b" ∷ [])) ≡ 1
unfolding keep_previous keep_one
fits = refl

select_group_members-sticky_example :
    contains (select_group_members three ("b" ∷ []) (some (pos 2))).0 "b" ≡ true
select_group_members-sticky_example =
    select_group_members-sticky three ("b" ∷ []) (pos 2) "b" (omega (arith, fits, two)) refl refl

selected_run : outcome ≡ reached chosen
unfolding values_json select_groups select_group member_files with_group previous_members
    matching_machines matching_names select_group_members select_kept sort_strings insert fill
    top_up max_name drop_extras keep_previous keep_one wanted str_lt render_member_node_file
    validate_file_path unsafe_char is_safe_path_char path_join path_clean elements elements_from
    clean_all clean_one joined is_abs contains_text machine_named int32
selected_run = refl

select_groups-IsClaim_example :
    Distinct (all_members chosen.group_statuses)
    × IsWithin (all_members chosen.group_statuses) (machine_names machines)
    × (chosen.total_members ≡ length (all_members chosen.group_statuses))
select_groups-IsClaim_example =
    select_groups-IsClaim machines (refl, (refl, tt)) every_machine "lab" sample.status.node_groups
      (workers ∷ others ∷ []) chosen selected_run

abbrev start : ClusterSt
start = record { cluster = sample; history = [] }

abbrev leaving : NixCluster
leaving = record sample { is_deleting = true }

reconcile-WritesAfter_example :
    WritesAfter "default" (converge_cron_name "lab") (reconcile (on leaving) "default" "lab").1
reconcile-WritesAfter_example = reconcile-WritesAfter (on leaving) "default" "lab" leaving refl refl

-- A converge child that is Ready.
abbrev child : NixCronJob
child =
    let plain = desired_converge_cron_job sample [] in
    record plain {
      status = record plain.status {
        workload = record plain.status.workload { phase = "Ready"; resolved_revision = "abc" };
        last_successful_time = some 10;
      };
    }

not_stalled : converge_stall slice_meta child true ≡ none
unfolding converge_stall find_in desired_converge_cron_job
not_stalled = refl

is_ready : cluster_phase slice_meta unix_times child true 2 ≡ cluster_ready
unfolding cluster_phase converge_stall find_in desired_converge_cron_job latest_run_failed
is_ready = refl

cluster_phase-members_example :
    (((cluster_phase slice_meta unix_times child true 2 == cluster_ready) ≡ false)
      ⊎ ((coarse_member_status slice_meta unix_times child true "" ≡ member_applied)
          ⊎ (coarse_member_status slice_meta unix_times child true "" ≡ member_applying)))
    × ((cluster_phase slice_meta unix_times child true 2 ≡ cluster_degraded)
        ↔ (coarse_member_status slice_meta unix_times child true "" ≡ member_failed))
cluster_phase-members_example =
    cluster_phase-members slice_meta unix_times child true 2 "" (omega arith) not_stalled

set_conditions_lem_example :
    (status_found slice_meta
        (conditioned slice_meta child true false 2 sample)
        condition_underprovisioned
      ≡ some condition_false)
    × (status_found slice_meta
          (conditioned slice_meta child true false 2 sample)
          condition_git_synced
        ≡ some (
            if true && not (child.status.workload.resolved_revision == "")
            then condition_true
            else condition_false))
    × (status_found slice_meta (conditioned slice_meta child true false 2 sample) condition_ready
        ≡ some condition_false)
    × (status_found slice_meta (conditioned slice_meta child true false 2 sample) condition_stalled
        ≡ (if is_some (converge_stall slice_meta child true) then some condition_true else none))
set_conditions_lem_example = set_conditions_lem slice_meta child true false 2 sample

-- A host that would close its string and open an antiquotation.
read-escape_nix_string_example :
    read_string false (escape_nix_string "a\"${x}\\" ++ "\"; }") ≡ some ("a\"${x}\\", "; }")
read-escape_nix_string_example = read-escape_nix_string "a\"${x}\\" "; }"

rendered_run : render_member_node_file "lab" "host-a" "10.0.0.1" none ≡ ok (file "host-a")
unfolding render_member_node_file values_json validate_file_path unsafe_char is_safe_path_char
    path_join path_clean elements elements_from clean_all clean_one joined is_abs contains_text
rendered_run = refl

-- A name that would leave the directory is refused.
traversal_run : is_ok (render_member_node_file "lab" "../host" "10.0.0.1" none) ≡ false
unfolding render_member_node_file contains_text
traversal_run = refl

path-render_member_node_file_example :
    (file "host-a").path ≡ "modules/nodes/" ++ ("host-a" ++ ".nix")
path-render_member_node_file_example =
    path-render_member_node_file "lab" "host-a" "10.0.0.1" none (file "host-a") rendered_run
