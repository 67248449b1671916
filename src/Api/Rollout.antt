-- ===== src/Api/Rollout.antt =====
-- NixDeployments and NixStatefulSets (api/v1alpha1/nixdeployment_types.go, nixstatefulset_types.go),
-- and apps/v1 Deployments and StatefulSets, as far as the controllers read and write them. The
-- API server admits no negative count of replicas.
use nio.Prelude.{ℕ, String, Bool, List, [], Option, none}
use nio.Kube.{Message}
use nio.Api.Core.{Labels, PodTemplate, VolumeClaimTemplate, zero_pod}
use nio.Api.Workload.{NixSpec, NixWorkloadStatus}
use nio.Api.Cluster.{LabelSelector}

-- intstr.IntOrString
pub data IntOrString : Type 0 where
  from_int : ℕ → IntOrString
  from_string : String → IntOrString

pub record RollingUpdate : Type 0 where
  pub max_unavailable : Option IntOrString
  pub max_surge : Option IntOrString

pub record DeploymentStrategy : Type 0 where
  pub type : String
  pub rolling_update : Option RollingUpdate

pub record DeploymentSpec : Type 0 where
  pub replicas : Option ℕ
  pub selector : Option LabelSelector
  pub template : PodTemplate
  pub strategy : DeploymentStrategy

-- `is_true`: the status of the condition is True.
pub record DeploymentCondition : Type 0 where
  pub type : String
  pub is_true : Bool
  pub message : Message

pub record Deployment : Type 0 where
  pub name : String
  pub namespace : String
  pub labels : Labels
  pub owner_uids : List String
  pub generation : ℕ
  pub spec : DeploymentSpec
  -- of the status
  pub observed_generation : ℕ
  pub updated_replicas : ℕ
  pub available_replicas : ℕ
  pub ready_replicas : ℕ
  pub conditions : List DeploymentCondition

-- `update_strategy` is kept as its text.
pub record StatefulSetSpec : Type 0 where
  pub replicas : Option ℕ
  pub selector : Option LabelSelector
  pub template : PodTemplate
  pub service_name : String
  pub volume_claim_templates : List VolumeClaimTemplate
  pub update_strategy : String

pub record StatefulSet : Type 0 where
  pub name : String
  pub namespace : String
  pub labels : Labels
  pub owner_uids : List String
  pub generation : ℕ
  pub spec : StatefulSetSpec
  -- of the status
  pub observed_generation : ℕ
  pub updated_replicas : ℕ
  pub ready_replicas : ℕ
  pub current_revision : String
  pub update_revision : String

pub record NixDeploymentSpec : Type 0 where
  pub nix : NixSpec
  pub deployment_template : Option DeploymentSpec

pub record NixDeploymentStatus : Type 0 where
  pub workload : NixWorkloadStatus
  pub ready_replicas : ℕ
  pub updated_replicas : ℕ
  pub available_replicas : ℕ

pub record NixDeployment : Type 0 where
  pub name : String
  pub namespace : String
  pub generation : ℕ
  pub is_deleting : Bool
  pub finalizers : List String
  pub spec : NixDeploymentSpec
  pub status : NixDeploymentStatus

pub record NixStatefulSetSpec : Type 0 where
  pub nix : NixSpec
  pub stateful_set_template : StatefulSetSpec

pub record NixStatefulSetStatus : Type 0 where
  pub workload : NixWorkloadStatus
  pub ready_replicas : ℕ
  pub updated_replicas : ℕ
  pub current_revision : String
  pub update_revision : String

pub record NixStatefulSet : Type 0 where
  pub name : String
  pub namespace : String
  pub generation : ℕ
  pub is_deleting : Bool
  pub finalizers : List String
  pub spec : NixStatefulSetSpec
  pub status : NixStatefulSetStatus

abbrev pub zero_deployment_spec : DeploymentSpec
zero_deployment_spec = record {
  replicas = none;
  selector = none;
  template = zero_pod;
  strategy = record { type = ""; rolling_update = none };
}

-- Objects with metadata and a spec, and a zero status.
abbrev pub new_deployment : String → String → Labels → DeploymentSpec → Deployment
new_deployment name namespace labels spec = record {
  name = name;
  namespace = namespace;
  labels = labels;
  owner_uids = [];
  generation = 0;
  spec = spec;
  observed_generation = 0;
  updated_replicas = 0;
  available_replicas = 0;
  ready_replicas = 0;
  conditions = [];
}

abbrev pub new_stateful_set : String → String → Labels → StatefulSetSpec → StatefulSet
new_stateful_set name namespace labels spec = record {
  name = name;
  namespace = namespace;
  labels = labels;
  owner_uids = [];
  generation = 0;
  spec = spec;
  observed_generation = 0;
  updated_replicas = 0;
  ready_replicas = 0;
  current_revision = "";
  update_revision = "";
}
