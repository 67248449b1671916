-- ===== src/Render/Template.antt =====
-- renderPodTemplate: what the operator adds to the pod template of a workload.
use Prim.Native.String.{◌++◌}
use mathlib.Core.List.{◌++◌ as append}
use nio.Prelude.{
  String, Bool, false, not, ◌&&◌, ◌||◌, List, [], ◌∷◌, Option, none, some, is_some, ◌==◌,
  if◌then◌else◌,
}
use nio.Api.Core.{
  Labels, Volume, VolumeMount, Container, PodTemplate, secret_source, empty_dir, new_container,
}
use nio.Api.Names.{managed_labels, label_revision, annotation_revision}
use nio.GitAuth.{is_ssh_repo}
use nio.Render.Commands.{run_command}
use nio.Render.Revision.{composite_revision}
use nio.Render.Config.{build_nix_config}
use nio.Render.Fetch.{fetch_source_script}
use nio.Render.Mounts.{
  put_label, put_labels, upsert_volumes, has_env_var, upsert_env, upsert_mounts,
  find_or_new_container, set_container, filter_out_containers,
}
use nio.Render.Inject.{
  nix_store_volume_name, workspace_volume, init_inject_files, nix_and_workspace,
  additional_files_injection,
}
use nio.Render.Pod.{
  RenderInput, ssh_volume_name, ssh_private_key_path, ssh_host_key_opts, git_creds_volume_name,
  git_creds_mount_path, init_bootstrap, init_fetch_source, init_instantiate, nix_bootstrap_mount,
  additional_files_config_map_name, image_of, app_name, work_dir, nix_store_volume, read_only_mount,
  wrap_ssh, uses_ssh, instantiate_command, creds_secret_name, build_mounts,
}

abbrev nix_config : RenderInput → String
nix_config i = build_nix_config i.store i.builder

abbrev has_creds : RenderInput → Bool
has_creds i = not (creds_secret_name i.spec == "")

abbrev is_flux : RenderInput → Bool
is_flux i = is_some i.spec.source.flux_source_ref

-- The environment and the mounts of fetch-source.
abbrev fetch_env : RenderInput → List (String × String)
fetch_env i =
    ("NIX_CONFIG", nix_config i)
    ∷ ("NIO_REVISION", i.resolved_revision)
    ∷ (if is_flux i
        then ("NIO_ARTIFACT_URL", i.artifact_url)
        else ("NIO_GIT_REPO", i.spec.source.git_repo))
    ∷ (if has_creds i then ("NIO_GIT_CREDENTIALS_PATH", git_creds_mount_path) ∷ [] else [])

abbrev fetch_mounts : RenderInput → List VolumeMount
fetch_mounts i =
    if has_creds i
    then append nix_and_workspace (read_only_mount git_creds_volume_name git_creds_mount_path ∷ [])
    else nix_and_workspace

abbrev bootstrap : RenderInput → Container
bootstrap i = record (new_container init_bootstrap) {
  image = image_of i.spec;
  command =
      "sh"
      ∷ "-c"
      ∷ ("[ -e " ++ nix_bootstrap_mount ++ "/store ] || cp --archive /nix/. " ++ nix_bootstrap_mount
          ++ "/")
      ∷ [];
  volume_mounts =
      record { name = nix_store_volume_name; mount_path = nix_bootstrap_mount; read_only = false }
      ∷ [];
}

abbrev fetch_source : RenderInput → Container
fetch_source i = record (new_container init_fetch_source) {
  image = image_of i.spec;
  command =
      "sh"
      ∷ "-c"
      ∷ fetch_source_script (is_flux i) (has_creds i)
          (has_creds i && is_ssh_repo i.spec.source.git_repo)
      ∷ [];
  env = fetch_env i;
  volume_mounts = fetch_mounts i;
}

abbrev instantiate : RenderInput → Container
instantiate i = record (new_container init_instantiate) {
  image = image_of i.spec;
  working_dir = work_dir i.spec;
  command = instantiate_command i;
  env =
      ("NIX_CONFIG", nix_config i)
      ∷ (if uses_ssh i
          then ("NIX_SSHOPTS", "-i " ++ ssh_private_key_path ++ " " ++ ssh_host_key_opts) ∷ []
          else []);
  volume_mounts = build_mounts i;
}

-- The inject-files container and its volumes, if there are additional files.
abbrev pub injection : RenderInput → Option (Container × List Volume)
injection i =
    additional_files_injection i.spec.additional_files (image_of i.spec)
      (additional_files_config_map_name i.name) (nix_config i)

abbrev pub container_of : Option (Container × List Volume) → List Container
container_of none = []
container_of (some (c, vs)) = c ∷ []

abbrev volumes_of : Option (Container × List Volume) → List Volume
volumes_of none = []
volumes_of (some (c, vs)) = vs

-- The init containers that the operator owns, in order.
unfoldable pub owned_inits : RenderInput → List Container
owned_inits i =
    bootstrap i ∷ fetch_source i ∷ append (container_of (injection i)) (instantiate i ∷ [])

abbrev pub owned_init_names : List String
owned_init_names = init_bootstrap ∷ init_fetch_source ∷ init_inject_files ∷ init_instantiate ∷ []

-- The volumes, in the order in which they are upserted.
unfoldable pub owned_volumes : RenderInput → List Volume
owned_volumes i =
    nix_store_volume i.spec.local_store
    ∷ record { name = workspace_volume; source = empty_dir false none }
    ∷ append
        (if uses_ssh i
          then record {
            name = ssh_volume_name;
            source = secret_source i.ssh_secret_name (some 0o400);
          }
            ∷ []
          else [])
        (append
          (if has_creds i
            then record {
              name = git_creds_volume_name;
              source = secret_source (creds_secret_name i.spec) (some 0o400);
            }
              ∷ []
            else [])
          (volumes_of (injection i)))

-- NIX_SSHOPTS of the app container, where the caller set none.
abbrev with_ssh_opts : RenderInput → List (String × String) → List (String × String)
with_ssh_opts i env =
    if not (has_env_var env "NIX_SSHOPTS") && uses_ssh i
    then upsert_env env "NIX_SSHOPTS" ssh_host_key_opts
    else env

-- The app container, from the one of the template.
unfoldable pub render_app : RenderInput → Container → Container
render_app i app =
    let nix = i.spec in
    record app {
      image = image_of nix;
      working_dir = work_dir nix;
      command =
          wrap_ssh (run_command nix.run nix.args nix.nix_flags)
            (uses_ssh i || has_env_var app.env "NIX_SSHOPTS");
      args = [];
      env = with_ssh_opts i (upsert_env app.env "NIX_CONFIG" (nix_config i));
      volume_mounts = upsert_mounts app.volume_mounts (build_mounts i);
    }

-- The labels that the operator stamps.
abbrev pub stamped_labels : RenderInput → String → Labels
stamped_labels i rev = append (managed_labels i.kind i.name) ((label_revision, rev) ∷ [])

unfoldable pub render_pod_template : (String → String) → RenderInput → PodTemplate → PodTemplate
render_pod_template sha256_hex i base =
    let rev = composite_revision sha256_hex i.resolved_revision i.spec.run i.spec.args in
    record base {
      labels = put_labels base.labels (stamped_labels i rev);
      annotations = put_label base.annotations annotation_revision rev;
      volumes = upsert_volumes base.volumes (owned_volumes i);
      init_containers =
          append (owned_inits i) (filter_out_containers base.init_containers owned_init_names);
      containers =
          set_container base.containers
            (render_app i (find_or_new_container base.containers (app_name i.spec)));
    }
