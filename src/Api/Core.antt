-- ===== src/Api/Core.antt =====
-- The core/v1 objects that the controllers read and write, as far as they do: pods, Secrets,
-- Services. A port of a container is its name and its number; the claim of a volume is kept as its
-- text.
use nio.Prelude.{ℕ, String, Bool, List, [], ◌∷◌, Option, none, some, ◌==◌, if◌then◌else◌}

-- Labels: a map of texts.
abbrev pub Labels : Type 0
Labels = List (String × String)

-- Where a volume comes from: `empty_dir` has whether it is in memory, and its limit; `ephemeral` has
-- the storage class and the requested size; any other kind is kept as its text.
pub data VolumeSource : Type 0 where
  secret_source config_map_source : String → Option ℕ → VolumeSource
  empty_dir : Bool → Option String → VolumeSource
  ephemeral : Option String → Option String → VolumeSource
  other_source : String → VolumeSource

pub record Volume : Type 0 where
  pub name : String
  pub source : VolumeSource

pub record VolumeMount : Type 0 where
  pub name : String
  pub mount_path : String
  pub read_only : Bool

pub record Container : Type 0 where
  pub name : String
  pub image : String
  pub working_dir : String
  pub command : List String
  pub args : List String
  pub ports : List (String × ℕ)
  pub env : List (String × String)
  pub volume_mounts : List VolumeMount

pub record PodTemplate : Type 0 where
  pub labels : Labels
  pub annotations : Labels
  pub volumes : List Volume
  pub init_containers : List Container
  pub containers : List Container
  pub restart_policy : String

abbrev pub new_container : String → Container
new_container name = record {
  name = name;
  image = "";
  working_dir = "";
  command = [];
  args = [];
  ports = [];
  env = [];
  volume_mounts = [];
}

abbrev pub zero_pod : PodTemplate
zero_pod = record {
  labels = [];
  annotations = [];
  volumes = [];
  init_containers = [];
  containers = [];
  restart_policy = "";
}

-- A Secret: its data, by key. `owner_uids` are the objects that its owner references name.
pub record Secret : Type 0 where
  pub name : String
  pub namespace : String
  pub labels : Labels
  pub owner_uids : List String
  pub type : String
  pub contents : List (String × String)

pub record VolumeClaimTemplate : Type 0 where
  pub name : String
  pub spec : String

pub record ServicePort : Type 0 where
  pub name : String
  pub port : ℕ
  pub target_port : ℕ

pub record Service : Type 0 where
  pub name : String
  pub namespace : String
  pub labels : Labels
  pub owner_uids : List String
  pub cluster_ip : String
  pub selector : Labels
  pub ports : List ServicePort

-- A lookup in a Go map.
unfoldable pub lookup : List (String × String) → String → Option String
lookup [] key = none
lookup ((k, v) ∷ entries) key = if k == key then some v else lookup entries key
