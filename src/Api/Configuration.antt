-- ===== src/Api/Configuration.antt =====
-- NixosConfiguration (api/v1alpha1/nixosconfiguration_types.go). `spec.jobTemplate`, which no
-- controller reads, is left out.
use nio.Prelude.{ℕ, String, Bool, List, Option}
use nio.Kube.Conditions.{Condition}
use nio.Api.Workload.{SecretKeyReference}

-- AdditionalFileValueType: `unsupported` is any other text, `NixosFacter` among them.
pub data ValueType : Type 0 where
  inline : ValueType
  secret_ref : ValueType
  unsupported : String → ValueType

pub record AdditionalFile : Type 0 where
  pub path : String
  pub value_type : ValueType
  pub inline : String
  pub secret_ref : Option SecretKeyReference

-- `machine_ref`, `credentials_ref`, `store_ref` and `builder_ref` are references by name.
pub record NixosConfigurationSpec : Type 0 where
  pub machine_ref : String
  pub git_repo : String
  pub ref : String
  pub credentials_ref : Option String
  pub flake : String
  pub on_remove_flake : String
  pub configuration_subdir : String
  pub day_two_schedule : String
  pub full_install : Bool
  pub additional_files : List AdditionalFile
  pub store_ref : Option String
  pub builder_ref : Option String

pub record NixosConfigurationStatus : Type 0 where
  pub observed_generation : ℕ
  pub phase : String
  pub full_disk_install_completed : Bool
  pub resolved_revision : String
  pub last_applied_time : Option ℕ
  pub target_machine : String
  pub install_job_ref : String
  pub day_two_cron_job_ref : String
  pub decommission_job_ref : String
  pub install_retries : ℕ
  pub on_remove_retries : ℕ
  pub conditions : List Condition

-- `resource_version` is the version that the server compares when the object is written.
pub record NixosConfiguration : Type 0 where
  pub name : String
  pub namespace : String
  pub generation : ℕ
  pub resource_version : ℕ
  pub creation_timestamp : ℕ
  pub is_deleting : Bool
  pub finalizers : List String
  pub spec : NixosConfigurationSpec
  pub status : NixosConfigurationStatus
