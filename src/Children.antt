-- ===== src/Children.antt =====
-- internal/controller/nixosconfiguration_children.go: the workloads that a NixosConfiguration
-- drives, built from the configuration and its target machine.
use Prim.Native.Char.{code}
use Prim.Native.String.{len, ◌++◌}
use nio.Prelude.{
  ℕ, String, Bool, true, false, ◌&&◌, ◌||◌, List, [], ◌∷◌, none, some, leb, eqb, ◌==◌,
  if◌then◌else◌,
}
use nio.Kube.{other, sprintf, str, Result, ok, err, ◌>>=◌}
use nio.Api.Core.{PodTemplate, secret_source, zero_pod, new_container}
use nio.Api.Workload.{
  NixFile, NixSource, JobSpec, NixJob, NixCronJob, zero_source, zero_nix, new_nix_job,
  new_nix_cron_job,
}
use nio.Api.Machine.{Machine}
use nio.Api.Configuration.{inline, secret_ref, unsupported, AdditionalFile, NixosConfiguration}

abbrev target_ssh_volume_name : String
target_ssh_volume_name = "nio-target-ssh"

abbrev target_ssh_mount_path : String
target_ssh_mount_path = "/etc/nio/target-ssh"

abbrev target_ssh_key_path : String
target_ssh_key_path = target_ssh_mount_path ++ "/ssh-privatekey"

abbrev target_nix_ssh_opts : String
target_nix_ssh_opts =
    "-i " ++ target_ssh_key_path ++ " -o StrictHostKeyChecking=no -o UserKnownHostsFile=/dev/null"

abbrev installer_installable : String
installer_installable = "github:nix-community/nixos-anywhere"

abbrev rebuild_installable : String
rebuild_installable = "nixpkgs#nixos-rebuild"

abbrev default_day_two_schedule : String
default_day_two_schedule = "*/30 * * * *"

-- internal/controller/nixrender.go
abbrev pub default_app_container : String
default_app_container = "app"

unfoldable pub install_child_name : String → String
install_child_name cfg = cfg ++ "-install"

unfoldable pub day_two_child_name : String → String
day_two_child_name cfg = cfg ++ "-day2"

unfoldable pub decommission_child_name : String → String
decommission_child_name cfg = cfg ++ "-onremove"

-- The body of the loop in `mapAdditionalFiles`.
map_additional_file : AdditionalFile → Result NixFile
map_additional_file f = elim f.value_type [
  | inline ↦
      ok
        (record { path = f.path; inline = some f.inline; config_map_ref = none; secret_ref = none })
  | secret_ref ↦
      ok (record { path = f.path; inline = none; config_map_ref = none; secret_ref = f.secret_ref })
  | unsupported t ↦
      err (
        other
          (sprintf "additionalFile %q: valueType %q is not supported" (str f.path ∷ str t ∷ [])))
]

map_files : List AdditionalFile → Result (List NixFile)
unfolding map_additional_file
map_files [] = ok []
map_files (f ∷ fs) = do file ← map_additional_file f; files ← map_files fs; ok (file ∷ files)

pub map_additional_files : NixosConfiguration → Result (List NixFile)
unfolding map_files
map_additional_files config = map_files config.spec.additional_files

-- c >= '0' && c <= '9', c >= 'a' && c <= 'f', c >= 'A' && c <= 'F'
is_hex_digit : ℕ → Bool
is_hex_digit c =
    (leb b'0' c && leb c b'9') || (leb b'a' c && leb c b'f') || (leb b'A' c && leb c b'F')

all_hex_digits : String → Bool
unfolding is_hex_digit
all_hex_digits String.[] = true
all_hex_digits (String.◌∷◌ c s) = is_hex_digit (code c) && all_hex_digits s

unfoldable pub is_full_commit_sha : String → Bool
unfolding all_hex_digits
is_full_commit_sha s = if eqb (len s) 40 then all_hex_digits s else false

child_nix_source : NixosConfiguration → NixSource
child_nix_source config =
    if is_full_commit_sha config.spec.ref
    then record src { rev = config.spec.ref }
    else record src { ref = config.spec.ref }
  where
    src : NixSource
    src = record zero_source {
      git_repo = config.spec.git_repo;
      dir = config.spec.configuration_subdir;
      credentials_ref = config.spec.credentials_ref;
    }

target_host : Machine → String
target_host machine =
    let user = if machine.spec.ssh_user == "" then "root" else machine.spec.ssh_user in
    user ++ "@" ++ machine.spec.host

flake_installable : String → String
flake_installable attr = "." ++ attr

-- The name of the machine's key secret is an argument: the builders check that it is set first.
target_ssh_pod_template : String → PodTemplate
target_ssh_pod_template secret_name = record zero_pod {
  volumes =
      record { name = target_ssh_volume_name; source = secret_source secret_name (some 0o400) }
      ∷ [];
  containers =
      record (new_container default_app_container) {
        env = ("NIX_SSHOPTS", target_nix_ssh_opts) ∷ [];
        volume_mounts =
            record {
              name = target_ssh_volume_name;
              mount_path = target_ssh_mount_path;
              read_only = true;
            }
            ∷ [];
      }
      ∷ [];
}

-- `requireTargetKey`, with the reference that it found.
pub require_target_key : Machine → Result String
require_target_key machine = elim machine.spec.ssh_key_secret_ref [
  | none ↦ err (
      other (
        sprintf "machine %q has no sshKeySecretRef; cannot apply over SSH" (str machine.name ∷ [])))
  | some secret ↦ ok secret
]

install_anywhere_args : NixosConfiguration → Machine → List String
unfolding flake_installable target_host
install_anywhere_args config machine =
    "--flake"
    ∷ flake_installable config.spec.flake
    ∷ "-i"
    ∷ target_ssh_key_path
    ∷ "--ssh-option"
    ∷ "StrictHostKeyChecking=no"
    ∷ "--ssh-option"
    ∷ "UserKnownHostsFile=/dev/null"
    ∷ target_host machine
    ∷ []

-- "switch --flake .<attr> --target-host <host>"
rebuild_args : String → Machine → List String
unfolding flake_installable target_host
rebuild_args attr machine =
    "switch" ∷ "--flake" ∷ flake_installable attr ∷ "--target-host" ∷ target_host machine ∷ []

abbrev job_spec_of : PodTemplate → JobSpec
job_spec_of pod = record {
  template = pod;
  ttl_seconds_after_finished = none;
  active_deadline_seconds = none;
}

unfoldable pub build_install_nix_job : NixosConfiguration → Machine → Result NixJob
unfolding require_target_key map_additional_files target_ssh_pod_template child_nix_source
    install_anywhere_args install_child_name
build_install_nix_job config machine = do
  secret ← require_target_key machine
  files ← map_additional_files config
  ok (
      new_nix_job (install_child_name config.name) config.namespace (record {
        nix = record zero_nix {
          source = child_nix_source config;
          run = installer_installable;
          args = install_anywhere_args config machine;
          additional_files = files;
          store_ref = config.spec.store_ref;
          builder_ref = config.spec.builder_ref;
        };
        job_template = some (job_spec_of (target_ssh_pod_template secret));
      }))

unfoldable pub build_day_two_nix_cron_job : NixosConfiguration → Machine → Result NixCronJob
unfolding require_target_key map_additional_files target_ssh_pod_template child_nix_source
    rebuild_args day_two_child_name
build_day_two_nix_cron_job config machine = do
  secret ← require_target_key machine
  files ← map_additional_files config
  let schedule =
      if config.spec.day_two_schedule == ""
      then default_day_two_schedule
      else config.spec.day_two_schedule
  ok (
      new_nix_cron_job (day_two_child_name config.name) config.namespace (record {
        nix = record zero_nix {
          source = child_nix_source config;
          run = rebuild_installable;
          args = rebuild_args config.spec.flake machine;
          additional_files = files;
          trigger_on_change = some true;
          store_ref = config.spec.store_ref;
          builder_ref = config.spec.builder_ref;
        };
        cron_job_template = record {
          schedule = schedule;
          forbid_concurrent = true;
          job_template = job_spec_of (target_ssh_pod_template secret);
        };
      }))

unfoldable pub build_decommission_nix_job : NixosConfiguration → Machine → Result NixJob
unfolding require_target_key map_additional_files target_ssh_pod_template child_nix_source
    rebuild_args decommission_child_name
build_decommission_nix_job config machine = do
  secret ← require_target_key machine
  files ← map_additional_files config
  ok (
      new_nix_job (decommission_child_name config.name) config.namespace (record {
        nix = record zero_nix {
          source = child_nix_source config;
          run = rebuild_installable;
          args = rebuild_args config.spec.on_remove_flake machine;
          additional_files = files;
          store_ref = config.spec.store_ref;
          builder_ref = config.spec.builder_ref;
        };
        job_template = some (job_spec_of (target_ssh_pod_template secret));
      }))
