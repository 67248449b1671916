-- ===== src/Infra/Server.antt =====
-- The StatefulSet and the Service of a store: desiredStatefulSet and the mutate function of
-- ensureService (internal/controller/nixstore_controller.go).
use Prim.Native.String.{◌++◌}
use nio.Prelude.{ℕ, String, [], ◌∷◌, none, some}
use nio.Api.Core.{Container, PodTemplate, Service, new_container}
use nio.Api.Builder.{NixStore}
use nio.Api.Names.{managed_labels}
use nio.Api.Rollout.{StatefulSet, new_stateful_set}
use nio.Render.Inject.{nix_store_volume_name, nix_mount_path}
use nio.Render.Mounts.{put_labels, upsert_volume}
use nio.Render.Pod.{ssh_volume_name, ssh_key_mount_path, read_only_mount}
use nio.Workload.Infra.{ssh_secret_name}
use nio.Infra.Keys.{kind_nix_store, signing_key_secret_name}
use nio.Infra.Pods.{mount_at, secret_volume, image_or, pod_of, with_containers}
use nio.Infra.Scripts.{store_start_script}

-- signingKeyVolumeName
abbrev pub signing_key_volume_name : String
signing_key_volume_name = "signing-key"

abbrev pub signing_key_mount_path : String
signing_key_mount_path = "/etc/nix/signing"

-- DefaultNixStoreImage
abbrev pub default_nix_store_image : String
default_nix_store_image = "nixos/nix:latest"

-- NixStoreHTTPPort, NixStoreSSHPort
abbrev pub nix_store_http_port : ℕ
nix_store_http_port = 5000

abbrev pub nix_store_ssh_port : ℕ
nix_store_ssh_port = 22

abbrev pub replicas_of : NixStore → ℕ
replicas_of store = elim store.spec.replicas [ none ↦ 1 | some n ↦ n ]

-- serverContainer
abbrev pub server_container : String → Container
server_container image = record (new_container "store") {
  image = image;
  command = "sh" ∷ "-c" ∷ store_start_script ∷ [];
  ports = ("http", nix_store_http_port) ∷ [];
  env =
      ("NIX_CONFIG", "experimental-features = nix-command flakes")
      ∷ ("CONFIG_FILE", "/etc/harmonia/config.toml")
      ∷ [];
  volume_mounts =
      mount_at nix_store_volume_name nix_mount_path
      ∷ read_only_mount signing_key_volume_name signing_key_mount_path
      ∷ read_only_mount ssh_volume_name ssh_key_mount_path
      ∷ [];
}

-- The volumes of the two Secrets.
abbrev pub with_key_volumes : NixStore → PodTemplate → PodTemplate
with_key_volumes store pod = record pod {
  volumes =
      upsert_volume
        (upsert_volume pod.volumes
          (secret_volume signing_key_volume_name (signing_key_secret_name store)))
        (secret_volume ssh_volume_name (ssh_secret_name store.name));
}

unfoldable pub desired_stateful_set : NixStore → StatefulSet
desired_stateful_set store =
    let labels = managed_labels kind_nix_store store.name in
    let image = image_or default_nix_store_image store.spec.image in
    let pod =
      with_key_volumes store
        (with_containers image (server_container image) (pod_of store.spec.template)) in
    new_stateful_set store.name store.namespace labels (record {
      replicas = some (replicas_of store);
      selector = some (record { match_labels = labels; match_expressions = [] });
      template = record pod { labels = labels };
      service_name = store.name;
      volume_claim_templates =
          record { name = nix_store_volume_name; spec = store.spec.storage } ∷ [];
      update_strategy = "";
    })

-- The mutate function of ensureService, before the owner reference.
unfoldable pub served : NixStore → Service → Service
served store svc =
    let labels = managed_labels kind_nix_store store.name in
    record svc {
      labels = put_labels svc.labels labels;
      cluster_ip = "None";
      selector = labels;
      ports =
          record { name = "http"; port = nix_store_http_port; target_port = nix_store_http_port }
          ∷ record { name = "ssh"; port = nix_store_ssh_port; target_port = nix_store_ssh_port }
          ∷ [];
    }

abbrev pub host_of : NixStore → String
host_of store = store.name ++ "." ++ store.namespace ++ ".svc"
