-- ===== src/Api/Workload.antt =====
-- The nix workloads (nixworkload_common_types.go, nixjob_types.go, nixcronjob_types.go) with the
-- batch and pod templates that they carry, as far as the controllers set or read them.
use nio.Prelude.{ℕ, String, Bool, false, List, [], Option, none}
use nio.Kube.Conditions.{Condition}
use nio.Api.Core.{Labels, PodTemplate, zero_pod}

pub record SecretKeyReference : Type 0 where
  pub name : String
  pub key : String

pub record NixFile : Type 0 where
  pub path : String
  pub inline : Option String
  pub config_map_ref : Option SecretKeyReference
  pub secret_ref : Option SecretKeyReference

-- `api_version` is empty for the default one.
pub record FluxSourceRef : Type 0 where
  pub kind : String
  pub name : String
  pub api_version : String

-- `poll_interval` counts seconds; an interval that is not positive is 0.
pub record NixSource : Type 0 where
  pub git_repo : String
  pub ref : String
  pub rev : String
  pub dir : String
  pub credentials_ref : Option String
  pub flux_source_ref : Option FluxSourceRef
  pub poll_interval : Option ℕ

-- `storage` is the claim of a volume, kept as its text; `max_jobs` admits no negative number.
pub record NixBuilderSpec : Type 0 where
  pub store_ref : Option String
  pub image : String
  pub systems : List String
  pub max_jobs : Option ℕ
  pub storage : Option String
  pub template : Option PodTemplate

-- A quantity is kept as its text.
pub record NixLocalStore : Type 0 where
  pub medium : String
  pub size_limit : Option String
  pub storage_class_name : String

-- `store_ref` and `builder_ref` are references by name.
pub record NixSpec : Type 0 where
  pub source : NixSource
  pub run : String
  pub args : List String
  pub prebuild : List String
  pub image : String
  pub container_name : String
  pub nix_flags : List String
  pub builder_template : Option NixBuilderSpec
  pub local_store : Option NixLocalStore
  pub additional_files : List NixFile
  pub trigger_on_change : Option Bool
  pub suspend : Bool
  pub store_ref : Option String
  pub builder_ref : Option String

-- batchv1.JobSpec
pub record JobSpec : Type 0 where
  pub template : PodTemplate
  pub ttl_seconds_after_finished : Option ℕ
  pub active_deadline_seconds : Option ℕ

-- batchv1.CronJobSpec
pub record CronJobSpec : Type 0 where
  pub schedule : String
  pub forbid_concurrent : Bool
  pub job_template : JobSpec

pub record NixJobSpec : Type 0 where
  pub nix : NixSpec
  pub job_template : Option JobSpec

abbrev pub zero_job_spec : JobSpec
zero_job_spec = record {
  template = zero_pod;
  ttl_seconds_after_finished = none;
  active_deadline_seconds = none;
}

-- Embedded in the status of every workload.
pub record NixWorkloadStatus : Type 0 where
  pub observed_generation : ℕ
  pub phase : String
  pub resolved_revision : String
  pub last_polled_time : Option ℕ
  pub rolled_out_revision : String
  pub workload_ref : String
  pub conditions : List Condition

pub record NixJobStatus : Type 0 where
  pub workload : NixWorkloadStatus
  pub active_job : String
  pub last_run_time : Option ℕ
  pub succeeded : ℕ
  pub failed : ℕ

-- `owner` is the name of the controller that the owner reference names; `is_deleting` says that
-- the deletion timestamp is set.
pub record NixJob : Type 0 where
  pub name : String
  pub namespace : String
  pub labels : Labels
  pub generation : ℕ
  pub owner : Option String
  pub is_deleting : Bool
  pub finalizers : List String
  pub spec : NixJobSpec
  pub status : NixJobStatus

pub record NixCronJobSpec : Type 0 where
  pub nix : NixSpec
  pub cron_job_template : CronJobSpec

pub record NixCronJobStatus : Type 0 where
  pub workload : NixWorkloadStatus
  pub last_schedule_time : Option ℕ
  pub last_successful_time : Option ℕ
  pub last_failed_time : Option ℕ
  pub active_jobs : List String

pub record NixCronJob : Type 0 where
  pub name : String
  pub namespace : String
  pub uid : String
  pub labels : Labels
  pub generation : ℕ
  pub owner : Option String
  pub is_deleting : Bool
  pub finalizers : List String
  pub spec : NixCronJobSpec
  pub status : NixCronJobStatus

-- Go's zero values, of which a literal sets some fields.
abbrev pub zero_source : NixSource
zero_source = record {
  git_repo = "";
  ref = "";
  rev = "";
  dir = "";
  credentials_ref = none;
  flux_source_ref = none;
  poll_interval = none;
}

abbrev pub zero_nix : NixSpec
zero_nix = record {
  source = zero_source;
  run = "";
  args = [];
  prebuild = [];
  image = "";
  container_name = "";
  nix_flags = [];
  builder_template = none;
  local_store = none;
  additional_files = [];
  trigger_on_change = none;
  suspend = false;
  store_ref = none;
  builder_ref = none;
}

abbrev pub zero_workload : NixWorkloadStatus
zero_workload = record {
  observed_generation = 0;
  phase = "";
  resolved_revision = "";
  last_polled_time = none;
  rolled_out_revision = "";
  workload_ref = "";
  conditions = [];
}

-- An object with a name and a spec, and nothing else.
abbrev pub new_nix_job : String → String → NixJobSpec → NixJob
new_nix_job name namespace spec = record {
  name = name;
  namespace = namespace;
  labels = [];
  generation = 0;
  owner = none;
  is_deleting = false;
  finalizers = [];
  spec = spec;
  status = record {
    workload = zero_workload;
    active_job = "";
    last_run_time = none;
    succeeded = 0;
    failed = 0;
  };
}

abbrev pub new_nix_cron_job : String → String → NixCronJobSpec → NixCronJob
new_nix_cron_job name namespace spec = record {
  name = name;
  namespace = namespace;
  uid = "";
  labels = [];
  generation = 0;
  owner = none;
  is_deleting = false;
  finalizers = [];
  spec = spec;
  status = record {
    workload = zero_workload;
    last_schedule_time = none;
    last_successful_time = none;
    last_failed_time = none;
    active_jobs = [];
  };
}
