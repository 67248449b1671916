-- ===== src/Infra/Pods.antt =====
-- What the pods of a store and of a builder share: upsertContainer
-- (internal/controller/nixstore_controller.go), the init container that seeds /nix, the pod that
-- the user's template starts from.
use nio.Prelude.{String, false, List, [], ◌∷◌, Option, none, some, ◌==◌, if◌then◌else◌}
use nio.Api.Core.{
  Container, PodTemplate, Volume, VolumeMount, secret_source, new_container, zero_pod,
}
use nio.Render.Inject.{nix_store_volume_name}
use nio.Render.Mounts.{filter_out_containers}
use nio.Render.Pod.{init_bootstrap, nix_bootstrap_mount}

-- The fields that the operator owns, in a container of the user.
abbrev pub merged : Container → Container → Container
merged user c = record user {
  image = c.image;
  command = c.command;
  args = c.args;
  ports = c.ports;
  env = c.env;
  volume_mounts = c.volume_mounts;
}

unfoldable pub upsert_container : List Container → Container → List Container
upsert_container [] c = c ∷ []
upsert_container (x ∷ xs) c =
    let rest = upsert_container xs c in if x.name == c.name then merged x c ∷ xs else x ∷ rest

abbrev pub mount_at : String → String → VolumeMount
mount_at name path = record { name = name; mount_path = path; read_only = false }

-- A volume of the data of a Secret, of the default mode.
abbrev pub secret_volume : String → String → Volume
secret_volume name secret_name = record { name = name; source = secret_source secret_name none }

abbrev pub bootstrap : String → Container
bootstrap image = record (new_container init_bootstrap) {
  image = image;
  command = "sh" ∷ "-c" ∷ "[ -e /nix-vol/store ] || cp --archive /nix/. /nix-vol/" ∷ [];
  volume_mounts = mount_at nix_store_volume_name nix_bootstrap_mount ∷ [];
}

abbrev pub image_or : String → String → String
image_or default_image image = if image == "" then default_image else image

-- The spec of the user's template, without its metadata.
abbrev pub pod_of : Option PodTemplate → PodTemplate
pod_of none = zero_pod
pod_of (some template) = record template { labels = []; annotations = [] }

-- The pod with the container of the server or of the worker, after the init container that seeds
-- /nix.
abbrev pub with_containers : String → Container → PodTemplate → PodTemplate
with_containers image c pod = record pod {
  init_containers =
      bootstrap image ∷ filter_out_containers pod.init_containers (init_bootstrap ∷ []);
  containers = upsert_container pod.containers c;
}
