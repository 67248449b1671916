-- ===== src/Samples/Renders.antt =====
-- The theorems on the rendering of pods, at a workload with a builder and a template of the user's.
use nio.Prelude.{String, false, List, [], ◌∷◌, none, some, ◌≡◌, refl}
use nio.Api.Core.{Container, PodTemplate, new_container, zero_pod, empty_dir}
use nio.Api.Names.{managed_labels}
use nio.Render.Shell.{shell_join}
use nio.Render.Revision.{composite_revision}
use nio.Render.Mounts.{has_env_var, put_label, put_labels, find_or_new_container}
use nio.Render.Inject.{additional_files_injection}
use nio.Render.Pod.{RenderInput, nix_store_volume, creds_secret_name, uses_ssh}
use nio.Render.Template.{owned_volumes, render_app, render_pod_template}
use nio.Render.Proofs.Inits.{IsInitialised}
use nio.Render.Proofs.Shell.{between, read_words, read-shell_join}
use nio.Render.Proofs.Pod.{value_of, volume_named, render_app-value, render_pod_template-keeps}
use nio.Samples.Operator.{spec}

read-shell_join_example :
    read_words between (shell_join ("echo" ∷ "it's; $(rm -rf /)" ∷ []))
    ≡ some ("echo" ∷ "it's; $(rm -rf /)" ∷ [])
read-shell_join_example = read-shell_join ("echo" ∷ "it's; $(rm -rf /)" ∷ [])

abbrev words : List String
words = "a b" ∷ []

abbrev revision : String
revision = "4f1a2b3c"

abbrev run : String
run = ".#hello"

abbrev input : RenderInput
input = record {
  spec = spec;
  resolved_revision = revision;
  artifact_url = "";
  store = none;
  builder = some (record {
    endpoint = "ssh-ng://root@builder";
    systems = [];
    ssh_key_path = "/etc/nio/ssh/ssh-privatekey";
  });
  ssh_secret_name = "cache-ssh";
  kind = "NixJob";
  name = "hello";
}

-- The key of a target host, set by the caller.
abbrev app : Container
app = record (new_container "app") { env = ("NIX_SSHOPTS", "-i /etc/target/key") ∷ [] }

abbrev sidecar : Container
sidecar = record (new_container "sidecar") { image = "proxy:1" }

abbrev base : PodTemplate
base = record zero_pod {
  labels = ("team", "infra") ∷ [];
  init_containers = new_container "migrate" ∷ new_container "bootstrap" ∷ [];
  containers = app ∷ sidecar ∷ [];
  volumes = record { name = "scratch"; source = empty_dir false none } ∷ [];
}

render_app-value_example :
    value_of (render_app input app).env "NIX_SSHOPTS" ≡ some "-i /etc/target/key"
unfolding has_env_var uses_ssh value_of
render_app-value_example = render_app-value input app "NIX_SSHOPTS"

abbrev hash : String → String
hash s = "0123456789abcdef"

abbrev pod : PodTemplate
pod = render_pod_template hash input base

render_pod_template-keeps_example :
    (find_or_new_container pod.containers "sidecar"
      ≡ find_or_new_container base.containers "sidecar")
    × (find_or_new_container pod.containers "app"
        ≡ render_app input (find_or_new_container base.containers "app"))
    × (volume_named pod.volumes "scratch" ≡ volume_named base.volumes "scratch")
    × (value_of pod.labels "team" ≡ value_of base.labels "team")
    × IsInitialised input base pod.init_containers
unfolding owned_volumes managed_labels put_label put_labels composite_revision nix_store_volume
    uses_ssh creds_secret_name additional_files_injection
render_pod_template-keeps_example =
    render_pod_template-keeps hash input base "sidecar" "scratch" "team" refl refl refl
