-- ===== src/Api/Cluster.antt =====
-- NixClusters (api/v1alpha1/nixcluster_types.go).
use nio.Prelude.{ℕ, ℤ, String, Bool, List, Option}
use nio.Kube.Conditions.{Condition}
use nio.Api.Core.{Labels}
use nio.Api.Workload.{NixSource}

-- metav1.LabelSelector: the labels to match, and the expressions (key, operator, values).
pub record LabelSelector : Type 0 where
  pub match_labels : Labels
  pub match_expressions : List (String × String × List String)

-- `values` are raw JSON.
pub record NodeGroup : Type 0 where
  pub name : String
  pub selector : LabelSelector
  pub count : Option ℤ
  pub values : Option String

pub record NixClusterSpec : Type 0 where
  pub source : NixSource
  pub ssh_key_ref : Option String
  pub age_key_ref : Option String
  pub store_ref : Option String
  pub builder_ref : Option String
  pub day_two_schedule : String
  pub node_groups : List NodeGroup

pub record MemberStatus : Type 0 where
  pub name : String
  pub status : String

pub record NodeGroupStatus : Type 0 where
  pub name : String
  pub members : List MemberStatus
  pub desired : ℤ
  pub selected : ℤ

pub record NixClusterStatus : Type 0 where
  pub phase : String
  pub node_groups : List NodeGroupStatus
  pub converge_job_ref : String
  pub conditions : List Condition
  pub observed_generation : ℕ

pub record NixCluster : Type 0 where
  pub name : String
  pub namespace : String
  pub generation : ℕ
  pub is_deleting : Bool
  pub finalizers : List String
  pub spec : NixClusterSpec
  pub status : NixClusterStatus
