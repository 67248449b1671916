-- ===== src/Render/Inject.antt =====
-- additionalFilesInjection: the init container that writes the additional files into the checkout,
-- and the volumes that it needs.
use Prim.Native.String.{◌++◌}
use nio.Prelude.{
  ℕ, ◌+◌, String, Bool, true, false, List, [], ◌∷◌, Option, none, some, ◌==◌, length, if◌then◌else◌,
}
use mathlib.Core.List.{◌++◌ as append}
use nio.Prelude.Decimal.{decimal}
use nio.Api.Core.{Volume, VolumeMount, Container, secret_source, config_map_source, new_container}
use nio.Api.Workload.{NixFile}

abbrev pub nix_store_volume_name : String
nix_store_volume_name = "nix-store"

abbrev pub workspace_volume : String
workspace_volume = "workspace"

abbrev pub nix_mount_path : String
nix_mount_path = "/nix"

abbrev pub workspace_mount_path : String
workspace_mount_path = "/workspace"

abbrev pub files_mount_base : String
files_mount_base = "/etc/nio/files"

abbrev pub init_inject_files : String
init_inject_files = "inject-files"

-- The sources mounted so far, in the order of their indexes: the key ("cm/<name>" or "sec/<name>"),
-- whether it is a ConfigMap, and the name.
pub record Source : Type 0 where
  pub key : String
  pub is_config_map : Bool
  pub name : String

-- The index of a key that is there, counted from the first argument.
unfoldable pub index_from : ℕ → List Source → String → Option ℕ
index_from i [] key = none
index_from i (s ∷ ss) key =
    let later = index_from (i + 1) ss key in if s.key == key then some i else later

abbrev source_of : Bool → String → Source
source_of is_config_map name = record {
  key = (if is_config_map then "cm" else "sec") ++ "/" ++ name;
  is_config_map = is_config_map;
  name = name;
}

-- The directory of an index.
abbrev pub ref_path : ℕ → String
ref_path i = files_mount_base ++ "/" ++ decimal i

abbrev placed : List Source → Source → Option ℕ → String × List Source
placed sources s none = (ref_path (length sources), append sources (s ∷ []))
placed sources s (some i) = (ref_path i, sources)

-- refDir: the directory of a source, and the sources with it
unfoldable pub ref_dir : List Source → Bool → String → String × List Source
ref_dir sources is_config_map name =
    let s = source_of is_config_map name in placed sources s (index_from 0 sources s.key)

-- What a source adds to the pod, and to the container.
abbrev pub volume_of : ℕ → Source → Volume
volume_of i s = record {
  name = "nio-file-" ++ decimal i;
  source =
      if s.is_config_map
      then config_map_source s.name (some 0o400)
      else secret_source s.name (some 0o400);
}

abbrev pub mount_of : ℕ → Source → VolumeMount
mount_of i s = record { name = "nio-file-" ++ decimal i; mount_path = ref_path i; read_only = true }

unfoldable pub volumes_from : ℕ → List Source → List Volume
volumes_from i [] = []
volumes_from i (s ∷ ss) = volume_of i s ∷ volumes_from (i + 1) ss

unfoldable pub mounts_from : ℕ → List Source → List VolumeMount
mounts_from i [] = []
mounts_from i (s ∷ ss) = mount_of i s ∷ mounts_from (i + 1) ss

-- Where the content of a file comes from: the directory, the key in it, and the sources after it.
abbrev with_key : String → String × List Source → String × List Source
with_key key (dir, sources) = (dir ++ "/" ++ key, sources)

unfoldable pub file_source : String → ℕ → NixFile → List Source → String × List Source
file_source inline_cm_name i f sources = elim f.config_map_ref [
  | some ref ↦ with_key ref.key (ref_dir sources true ref.name)
  | none ↦ elim f.secret_ref [
    | some ref ↦ with_key ref.key (ref_dir sources false ref.name)
    | none ↦ with_key ("file-" ++ decimal i) (ref_dir sources true inline_cm_name)
  ]
]

-- The lines for one file.
unfoldable pub file_lines : String → String → String
file_lines src path =
    "mkdir -p \"$(dirname \"" ++ path ++ "\")\"\n" ++ "cp \"" ++ src ++ "\" \"" ++ path ++ "\"\n"

-- One turn of the loop over the files: its lines, before those of the files after it.
abbrev pub prefixed : String → String × List Source → String × List Source
prefixed lines (rest, sources) = (lines ++ rest, sources)

-- The lines for the files from an index on, and all sources.
unfoldable pub copy_lines : String → ℕ → List NixFile → List Source → String × List Source
copy_lines inline_cm_name i [] sources = ("", sources)
copy_lines inline_cm_name i (f ∷ fs) sources =
    let (src, more) = file_source inline_cm_name i f sources in
    prefixed (file_lines src f.path) (copy_lines inline_cm_name (i + 1) fs more)

unfoldable pub staged_paths : List NixFile → String
staged_paths [] = ""
staged_paths (f ∷ fs) = " \"" ++ f.path ++ "\"" ++ staged_paths fs

abbrev inject_script : String → List NixFile → String
inject_script copies files =
    "set -eu\ncd "
    ++ workspace_mount_path
    ++ "\n"
    ++ copies
    ++ "git add --force --"
    ++ staged_paths files
    ++ "\n"

abbrev pub nix_and_workspace : List VolumeMount
nix_and_workspace =
    record { name = nix_store_volume_name; mount_path = nix_mount_path; read_only = false }
    ∷ record { name = workspace_volume; mount_path = workspace_mount_path; read_only = false }
    ∷ []

abbrev inject_container :
    List NixFile → String → String → String × List Source → Container × List Volume
inject_container files image nix_config (copies, sources) = (
  record (new_container init_inject_files) {
    image = image;
    env = ("NIX_CONFIG", nix_config) ∷ [];
    command =
        "nix"
        ∷ "shell"
        ∷ "nixpkgs#gitMinimal"
        ∷ "--command"
        ∷ "sh"
        ∷ "-c"
        ∷ inject_script copies files
        ∷ [];
    volume_mounts = append nix_and_workspace (mounts_from 0 sources);
  },
  volumes_from 0 sources,
)

-- None is ok=false.
unfoldable pub additional_files_injection :
    List NixFile → String → String → String → Option (Container × List Volume)
additional_files_injection [] image inline_cm_name nix_config = none
additional_files_injection (f ∷ fs) image inline_cm_name nix_config =
    some (inject_container (f ∷ fs) image nix_config (copy_lines inline_cm_name 0 (f ∷ fs) []))
