-- ===== src/Samples/Lab.antt =====
-- A cluster of two groups, its machines and a server that answers from them.
use Prim.Native.String.{◌++◌}
use nio.Prelude.{pos, String, Bool, true, false, List, [], ◌∷◌, none, some}
use nio.Kube.{Result, ok}
use nio.Kube.Conditions.{slice_meta}
use nio.Kube.Times.{unix_times}
use nio.Api.Core.{Labels}
use nio.Api.Workload.{NixFile, NixSource, zero_source}
use nio.Api.Machine.{Machine}
use nio.Api.Builder.{NixBuilder, new_nix_builder}
use nio.Api.Cluster.{LabelSelector, NodeGroup, NixCluster, NodeGroupStatus}
use nio.Cluster.NodeFile.{render_node_file_content}
use nio.Cluster.Groups.{Selection, nothing_selected, Outcome, select_groups}
use nio.Cluster.State.{ClusterClient, NixClusterReconciler}
use nio.Samples.Server.{host, missing, has, without}

abbrev pub arm : Machine
arm = record host { name = "host-b"; status = record host.status { architecture = some "aarch64" } }

abbrev pub machines : List Machine
machines = arm ∷ host ∷ []

abbrev pub workers : NodeGroup
workers = record {
  name = "workers";
  selector = record { match_labels = ("role", "worker") ∷ []; match_expressions = [] };
  count = some (pos 1);
  values = none;
}

abbrev pub others : NodeGroup
others = record workers { name = "others"; count = none }

abbrev pub source : NixSource
source = record zero_source { git_repo = "https://example.org/flake"; ref = "main" }

abbrev pub sample : NixCluster
sample = record {
  name = "lab";
  namespace = "default";
  generation = 3;
  is_deleting = false;
  finalizers = "nio.homystack.com/finalizer" ∷ [];
  spec = record {
    source = source;
    ssh_key_ref = some "key";
    age_key_ref = none;
    store_ref = none;
    builder_ref = some "big";
    day_two_schedule = "";
    node_groups = workers ∷ others ∷ [];
  };
  status = record {
    phase = "Converging";
    node_groups =
        record {
          name = "workers";
          members = record { name = "host-b"; status = "Applied" } ∷ [];
          desired = pos 1;
          selected = pos 1;
        }
        ∷ [];
    converge_job_ref = "";
    conditions = [];
    observed_generation = 2;
  };
}

abbrev pub every_machine : LabelSelector → Result (Labels → Bool)
every_machine selector = ok (λ labels. true)

abbrev pub file : String → NixFile
file machine = record {
  path = "modules/nodes/" ++ machine ++ ".nix";
  inline = some (render_node_file_content "lab" machine "10.0.0.1" "{}");
  config_map_ref = none;
  secret_ref = none;
}

abbrev pub group_of : String → String → NodeGroupStatus
group_of name machine = record {
  name = name;
  members = record { name = machine; status = "" } ∷ [];
  desired = pos 1;
  selected = pos 1;
}

-- host-b was a member of the workers and stays one, although host-a comes first.
abbrev pub chosen : Selection
chosen = record {
  claimed = "host-b" ∷ "host-a" ∷ [];
  group_statuses = group_of "workers" "host-b" ∷ group_of "others" "host-a" ∷ [];
  node_files = file "host-b" ∷ file "host-a" ∷ [];
  any_under = false;
  total_members = 2;
}

abbrev pub outcome : Outcome Selection
outcome =
    select_groups every_machine machines "lab" sample.status.node_groups (workers ∷ others ∷ [])
      nothing_selected

abbrev pub intel_only : NixBuilder
intel_only =
    record (new_nix_builder "big" "default" (record {
      store_ref = none;
      image = "";
      systems = "x86_64-linux" ∷ [];
      max_jobs = none;
      storage = none;
      template = none;
    })) { ready = true; builder_endpoint = "ssh-ng://root@big" }

abbrev pub client : NixCluster → ClusterClient
client cluster = record {
  get_cluster = λ h ns name. ok cluster;
  list_machines = λ h ns. ok machines;
  get_builder = λ h ns name. ok intel_only;
  get_cron = λ h ns name. missing;
  update_cluster = λ h c. ok c;
  update_cluster_status = λ h c. ok c;
  create_or_update_cron = λ h ns name f. none;
  update_cron = λ h c. none;
  delete_cron = λ h ns name. none;
  set_controller = λ c j. ok j;
  contains_finalizer = has;
  add_finalizer = λ fs f. f ∷ fs;
  remove_finalizer = without;
  as_selector = every_machine;
}

abbrev pub on : NixCluster → NixClusterReconciler
on cluster = record { client = client cluster; meta = slice_meta; times = unix_times }
