-- ===== src/Cluster/Converge.antt =====
-- The converge child of a cluster: the NixCronJob that is built, created or updated, suspended.
use Prim.Native.String.{◌++◌}
use nio.Prelude.{ℕ, String, true, List, [], ◌∷◌, Option, none, some, if◌then◌else◌, ◌==◌}
use nio.Kube.{Result, ok, err, is_not_found}
use nio.Kube.Actions.{◌>>=◌, pure, fail, attempt, get}
use nio.Api.Core.{Volume, VolumeMount, PodTemplate, secret_source, zero_pod, new_container}
use nio.Api.Workload.{NixFile, NixCronJob, zero_nix, new_nix_cron_job}
use nio.Api.Cluster.{NixCluster}
use nio.Api.Names.{managed_labels}
use nio.Children.{default_app_container}
use nio.Cluster.State.{ClusterStep, NixClusterReconciler, get_cron, write_cron, put_cron}

abbrev converge_child_suffix : String
converge_child_suffix = "-converge"

abbrev cluster_ssh_volume_name : String
cluster_ssh_volume_name = "nio-cluster-ssh"

abbrev cluster_ssh_mount_path : String
cluster_ssh_mount_path = "/etc/nio/cluster-ssh"

abbrev cluster_ssh_key_path : String
cluster_ssh_key_path = cluster_ssh_mount_path ++ "/ssh-privatekey"

abbrev cluster_age_volume_name : String
cluster_age_volume_name = "nio-cluster-age"

abbrev cluster_age_mount_path : String
cluster_age_mount_path = "/etc/nio/age"

abbrev cluster_age_key_path : String
cluster_age_key_path = cluster_age_mount_path ++ "/keys.txt"

abbrev cluster_nix_ssh_opts : String
cluster_nix_ssh_opts =
    "-i " ++ cluster_ssh_key_path ++ " -o StrictHostKeyChecking=no -o UserKnownHostsFile=/dev/null"

abbrev converge_active_deadline_seconds : ℕ
converge_active_deadline_seconds = 3600

abbrev default_cluster_day_two_schedule : String
default_cluster_day_two_schedule = "*/30 * * * *"

unfoldable pub converge_cron_name : String → String
converge_cron_name cluster = cluster ++ converge_child_suffix

unfoldable pub cluster_app_installable : String → String
cluster_app_installable cluster = ".#cluster-" ++ cluster

-- internal/controller/nix_common.go
-- What a key reference adds to the pod: a volume, its mount, a variable.
abbrev key_volume : String → Option String → List Volume → List Volume
key_volume volume none rest = rest
key_volume volume (some name) rest =
    record { name = volume; source = secret_source name (some 0o400) } ∷ rest

abbrev key_mount : String → String → Option String → List VolumeMount → List VolumeMount
key_mount volume path none rest = rest
key_mount volume path (some secret) rest =
    record { name = volume; mount_path = path; read_only = true } ∷ rest

abbrev key_env : String → String → Option String → List (String × String) → List (String × String)
key_env name value none rest = rest
key_env name value (some secret) rest = (name, value) ∷ rest

unfoldable pub converge_pod_template : NixCluster → PodTemplate
converge_pod_template cluster =
    let ssh = cluster.spec.ssh_key_ref in
    let age = cluster.spec.age_key_ref in
    record zero_pod {
      volumes = key_volume cluster_ssh_volume_name ssh (key_volume cluster_age_volume_name age []);
      containers =
          record (new_container default_app_container) {
            env =
                key_env "NIX_SSHOPTS" cluster_nix_ssh_opts ssh
                  (key_env "SOPS_AGE_KEY_FILE" cluster_age_key_path age []);
            volume_mounts =
                key_mount cluster_ssh_volume_name cluster_ssh_mount_path ssh
                  (key_mount cluster_age_volume_name cluster_age_mount_path age []);
          }
          ∷ [];
    }

unfoldable pub desired_converge_cron_job : NixCluster → List NixFile → NixCronJob
desired_converge_cron_job cluster files =
    record (new_nix_cron_job (converge_cron_name cluster.name) cluster.namespace (record {
      nix = record zero_nix {
        source = cluster.spec.source;
        run = cluster_app_installable cluster.name;
        args = "converge" ∷ [];
        additional_files = files;
        trigger_on_change = some true;
        store_ref = cluster.spec.store_ref;
        builder_ref = cluster.spec.builder_ref;
      };
      cron_job_template = record {
        schedule =
            if cluster.spec.day_two_schedule == ""
            then default_cluster_day_two_schedule
            else cluster.spec.day_two_schedule;
        forbid_concurrent = true;
        job_template = record {
          template = converge_pod_template cluster;
          ttl_seconds_after_finished = none;
          active_deadline_seconds = some converge_active_deadline_seconds;
        };
      };
    })) { labels = managed_labels "NixCluster" cluster.name }

abbrev suspended : NixCronJob → NixCronJob
suspended cron = record cron {
  spec = record cron.spec { nix = record cron.spec.nix { suspend = true } };
}

module _ (r : NixClusterReconciler) where
  -- The function that CreateOrUpdate runs on the object.
  unfoldable pub converge_change : NixCluster → NixCronJob → NixCronJob → Result NixCronJob
  converge_change cluster desired cron =
      r.set_controller cluster (record cron { labels = desired.labels; spec = desired.spec })

  unfoldable pub ensure_converge_cron_job : List NixFile → ClusterStep (Unit {0})
  ensure_converge_cron_job files = do
    s ← get
    let desired = desired_converge_cron_job s.cluster files
    put_cron r desired (converge_change s.cluster desired)

  abbrev pub suspend_found : Result NixCronJob → ClusterStep (Unit {0})
  suspend_found (ok cron) = if cron.spec.nix.suspend then pure tt else write_cron r (suspended cron)
  suspend_found (err e) = if is_not_found e then pure tt else fail e

  unfoldable pub suspend_converge_cron_job : ClusterStep (Unit {0})
  suspend_converge_cron_job = do
    s ← get
    found ← attempt (get_cron r s.cluster.namespace (converge_cron_name s.cluster.name))
    suspend_found found
