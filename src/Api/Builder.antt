-- ===== src/Api/Builder.antt =====
-- NixBuilders and NixStores (api/v1alpha1/nixbuilder_types.go, nixstore_types.go), and the
-- ConfigMaps and pods, as far as the controllers read and write them.
use nio.Prelude.{ℕ, String, Bool, false, List, [], Option, none}
use nio.Kube.Conditions.{Condition}
use nio.Api.Core.{PodTemplate}
use nio.Api.Workload.{NixBuilderSpec}

-- `owner` is the name of the controller that the owner reference names.
pub record NixBuilder : Type 0 where
  pub name : String
  pub namespace : String
  pub owner : Option String
  pub generation : ℕ
  pub spec : NixBuilderSpec
  -- of the status
  pub observed_generation : ℕ
  pub phase : String
  pub builder_endpoint : String
  pub ready : Bool
  pub conditions : List Condition

-- `storage` is kept as its text; a negative count of replicas is left out, and so are the upstream
-- substituters, which the controllers do not read.
pub record NixStoreSpec : Type 0 where
  pub replicas : Option ℕ
  pub storage : String
  pub image : String
  pub signing_key_secret_ref : Option String
  pub template : Option PodTemplate

pub record NixStore : Type 0 where
  pub name : String
  pub namespace : String
  pub generation : ℕ
  pub spec : NixStoreSpec
  -- of the status
  pub observed_generation : ℕ
  pub phase : String
  pub substituter_url : String
  pub store_uri : String
  pub public_key : String
  pub ready_replicas : ℕ
  pub conditions : List Condition

pub record ConfigMap : Type 0 where
  pub name : String
  pub namespace : String
  pub owner : Option String
  pub contents : List (String × String)

-- corev1.ContainerState: the exit code, or the reason.
pub data ContainerState : Type 0 where
  terminated : ℕ → ContainerState
  waiting : String → ContainerState
  running : ContainerState
  no_state : ContainerState

-- A pod, by the statuses of its init containers.
pub record Pod : Type 0 where
  pub init_statuses : List (String × ContainerState)

-- Objects with metadata and a spec, and a zero status.
abbrev pub new_nix_builder : String → String → NixBuilderSpec → NixBuilder
new_nix_builder name namespace spec = record {
  name = name;
  namespace = namespace;
  owner = none;
  generation = 0;
  spec = spec;
  observed_generation = 0;
  phase = "";
  builder_endpoint = "";
  ready = false;
  conditions = [];
}

abbrev pub new_nix_store : String → String → NixStoreSpec → NixStore
new_nix_store name namespace spec = record {
  name = name;
  namespace = namespace;
  generation = 0;
  spec = spec;
  observed_generation = 0;
  phase = "";
  substituter_url = "";
  store_uri = "";
  public_key = "";
  ready_replicas = 0;
  conditions = [];
}
