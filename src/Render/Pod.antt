-- ===== src/Render/Pod.antt =====
-- The input of renderPodTemplate, and the names, volumes, mounts and commands that it uses.
use Prim.Native.String.{◌++◌}
use mathlib.Core.List.{◌++◌ as append}
use nio.Prelude.{
  String, Bool, true, false, not, ◌&&◌, List, [], ◌∷◌, Option, none, some, is_some, ◌==◌,
  if◌then◌else◌,
}
use nio.Prelude.Texts.{path_join}
use nio.Api.Core.{Volume, VolumeMount, empty_dir, ephemeral}
use nio.Api.Workload.{NixSpec, NixLocalStore}
use nio.Children.{default_app_container}
use nio.Render.Shell.{shell_quote, shell_join}
use nio.Render.Commands.{build_command}
use nio.Render.Config.{StoreInfo, BuilderInfo}
use nio.Render.Inject.{nix_store_volume_name, workspace_mount_path, nix_and_workspace}

-- renderInput
pub record RenderInput : Type 0 where
  pub spec : NixSpec
  pub resolved_revision : String
  pub artifact_url : String
  pub store : Option StoreInfo
  pub builder : Option BuilderInfo
  pub ssh_secret_name : String
  pub kind : String
  pub name : String

abbrev pub default_runner_image : String
default_runner_image = "nixos/nix:latest"

abbrev pub ssh_volume_name : String
ssh_volume_name = "nio-ssh"

abbrev pub ssh_key_mount_path : String
ssh_key_mount_path = "/etc/nio/ssh"

abbrev pub ssh_private_key_path : String
ssh_private_key_path = "/etc/nio/ssh/ssh-privatekey"

abbrev pub ssh_host_key_opts : String
ssh_host_key_opts = "-o StrictHostKeyChecking=no -o UserKnownHostsFile=/dev/null"

abbrev pub git_creds_volume_name : String
git_creds_volume_name = "nio-git-creds"

abbrev pub git_creds_mount_path : String
git_creds_mount_path = "/etc/nio/git-creds"

abbrev pub init_bootstrap : String
init_bootstrap = "bootstrap"

abbrev pub init_fetch_source : String
init_fetch_source = "fetch-source"

abbrev pub init_instantiate : String
init_instantiate = "instantiate"

abbrev pub nix_bootstrap_mount : String
nix_bootstrap_mount = "/nix-vol"

-- additionalFilesConfigMapName
abbrev pub additional_files_config_map_name : String → String
additional_files_config_map_name owner = owner ++ "-nixfiles"

abbrev pub image_of : NixSpec → String
image_of nix = if nix.image == "" then default_runner_image else nix.image

abbrev pub app_name : NixSpec → String
app_name nix = if nix.container_name == "" then default_app_container else nix.container_name

abbrev pub work_dir : NixSpec → String
work_dir nix =
    if nix.source.dir == ""
    then workspace_mount_path
    else path_join workspace_mount_path nix.source.dir

-- The volume of a medium, its limit and its storage class.
abbrev medium_volume : String → Option String → String → Volume
medium_volume medium size class =
    if medium == "Memory"
    then record { name = nix_store_volume_name; source = empty_dir true size }
    else if medium == "PodPVC"
    then record {
      name = nix_store_volume_name;
      source = ephemeral (if class == "" then none else some class) size;
    }
    else record { name = nix_store_volume_name; source = empty_dir false size }

unfoldable pub nix_store_volume : Option NixLocalStore → Volume
nix_store_volume none = medium_volume "Disk" none ""
nix_store_volume (some ls) =
    medium_volume (if ls.medium == "" then "Disk" else ls.medium) ls.size_limit
      ls.storage_class_name

abbrev pub read_only_mount : String → String → VolumeMount
read_only_mount name path = record { name = name; mount_path = path; read_only = true }

-- A command that needs openssh on its PATH.
abbrev pub wrap_ssh : List String → Bool → List String
wrap_ssh cmd needs_ssh =
    if not needs_ssh
    then cmd
    else "sh" ∷ "-c" ∷ ("exec nix shell nixpkgs#openssh --command " ++ shell_join cmd) ∷ []

-- The endpoint that built paths are pushed to; the empty one is none.
abbrev push_url_of : Option StoreInfo → String
push_url_of none = ""
push_url_of (some store) = store.push_url

unfoldable pub uses_ssh : RenderInput → Bool
uses_ssh i = not (i.ssh_secret_name == "")

unfoldable pub instantiate_command : RenderInput → List String
instantiate_command i =
    let nix = i.spec in
    let build = build_command nix.run nix.prebuild nix.nix_flags in
    let push_url = push_url_of i.store in
    if uses_ssh i && not (push_url == "")
    then (let push = "nix" ∷ "copy" ∷ "--to" ∷ push_url ∷ nix.run ∷ nix.prebuild in
        "sh"
        ∷ "-c"
        ∷ ("exec nix shell nixpkgs#openssh --command sh -c "
            ++ shell_quote (shell_join build ++ " && " ++ shell_join push))
        ∷ [])
    else wrap_ssh build (uses_ssh i)

-- The secret of a private repository, for a clone that is not a Flux artifact; none is empty.
unfoldable pub creds_secret_name : NixSpec → String
creds_secret_name nix = elim nix.source.credentials_ref [
  | none ↦ ""
  | some name ↦ if is_some nix.source.flux_source_ref then "" else name
]

-- The mounts of the containers that build or run.
unfoldable pub build_mounts : RenderInput → List VolumeMount
build_mounts i =
    if uses_ssh i
    then append nix_and_workspace (read_only_mount ssh_volume_name ssh_key_mount_path ∷ [])
    else nix_and_workspace
