-- ===== src/Infra/Worker.antt =====
-- The StatefulSet and the Service of a builder: desiredStatefulSet and the mutate function of
-- ensureService (internal/controller/nixbuilder_controller.go).
use nio.Prelude.{ℕ, String, false, List, [], ◌∷◌, Option, none, some, is_some}
use mathlib.Core.List.{◌++◌ as append}
use nio.Prelude.Decimal.{decimal}
use nio.Api.Core.{
  Volume, VolumeMount, Container, PodTemplate, Service, VolumeClaimTemplate, empty_dir,
  new_container,
}
use nio.Api.Builder.{NixBuilder}
use nio.Api.Names.{managed_labels}
use nio.Api.Rollout.{StatefulSet, new_stateful_set}
use nio.Render.Inject.{nix_store_volume_name, nix_mount_path}
use nio.Render.Mounts.{put_labels, upsert_volume}
use nio.Render.Pod.{ssh_volume_name, ssh_key_mount_path, read_only_mount}
use nio.Workload.Infra.{ssh_secret_name}
use nio.Infra.Pods.{mount_at, secret_volume, image_or, pod_of, with_containers}
use nio.Infra.Scripts.{builder_start_script}

abbrev pub kind_nix_builder : String
kind_nix_builder = "NixBuilder"

-- DefaultNixBuilderImage
abbrev pub default_nix_builder_image : String
default_nix_builder_image = "nixos/nix:latest"

-- NixBuilderSSHPort
abbrev pub nix_builder_ssh_port : ℕ
nix_builder_ssh_port = 22

abbrev jobs_env : Option ℕ → List (String × String)
jobs_env none = []
jobs_env (some n) = ("NIX_MAX_JOBS", decimal n) ∷ []

-- workerMounts, and the volumes of the pod, by the store whose key is mounted.
abbrev pub worker_mounts : Option String → List VolumeMount
worker_mounts none = mount_at nix_store_volume_name nix_mount_path ∷ []
worker_mounts (some store_name) =
    mount_at nix_store_volume_name nix_mount_path
    ∷ read_only_mount ssh_volume_name ssh_key_mount_path
    ∷ []

abbrev pub with_key_volume : Option String → List Volume → List Volume
with_key_volume none volumes = volumes
with_key_volume (some store_name) volumes =
    upsert_volume volumes (secret_volume ssh_volume_name (ssh_secret_name store_name))

-- The container of the worker.
abbrev pub worker : String → NixBuilder → Container
worker image builder = record (new_container "builder") {
  image = image;
  command = "sh" ∷ "-c" ∷ builder_start_script (is_some builder.spec.store_ref) ∷ [];
  ports = ("ssh", nix_builder_ssh_port) ∷ [];
  env =
      append (("NIX_CONFIG", "experimental-features = nix-command flakes") ∷ [])
        (jobs_env builder.spec.max_jobs);
  volume_mounts = worker_mounts builder.spec.store_ref;
}

-- Where /nix of the builder is: a claim, or a directory of the pod.
abbrev pub claims_of : Option String → List VolumeClaimTemplate
claims_of none = []
claims_of (some storage) = record { name = nix_store_volume_name; spec = storage } ∷ []

abbrev pub with_scratch : Option String → List Volume → List Volume
with_scratch none volumes =
    upsert_volume volumes (record { name = nix_store_volume_name; source = empty_dir false none })
with_scratch (some storage) volumes = volumes

abbrev pub worker_pod : NixBuilder → PodTemplate → PodTemplate
worker_pod builder pod = record pod {
  labels = managed_labels kind_nix_builder builder.name;
  volumes = with_scratch builder.spec.storage (with_key_volume builder.spec.store_ref pod.volumes);
}

unfoldable pub desired_stateful_set : NixBuilder → StatefulSet
desired_stateful_set builder =
    let labels = managed_labels kind_nix_builder builder.name in
    let image = image_or default_nix_builder_image builder.spec.image in
    new_stateful_set builder.name builder.namespace labels (record {
      replicas = some 1;
      selector = some (record { match_labels = labels; match_expressions = [] });
      template =
          worker_pod builder
            (with_containers image (worker image builder) (pod_of builder.spec.template));
      service_name = builder.name;
      volume_claim_templates = claims_of builder.spec.storage;
      update_strategy = "";
    })

unfoldable pub served : NixBuilder → Service → Service
served builder svc =
    let labels = managed_labels kind_nix_builder builder.name in
    record svc {
      labels = put_labels svc.labels labels;
      cluster_ip = "None";
      selector = labels;
      ports =
          record { name = "ssh"; port = nix_builder_ssh_port; target_port = nix_builder_ssh_port }
          ∷ [];
    }
