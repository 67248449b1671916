-- ===== src/Api/Batch.antt =====
-- batch/v1 Jobs and CronJobs, as far as the workload controllers read and write them.
use nio.Prelude.{ℕ, String, Bool, List, [], Option, none}
use nio.Api.Core.{Labels}
use nio.Api.Workload.{JobSpec, CronJobSpec}

-- `is_true`: the status of the condition is True.
pub record JobCondition : Type 0 where
  pub type : String
  pub is_true : Bool
  pub last_transition_time : ℕ

-- `owner_uids`: the UIDs of the owner references.
pub record BatchJob : Type 0 where
  pub name : String
  pub namespace : String
  pub labels : Labels
  pub owner_uids : List String
  pub creation_timestamp : ℕ
  pub spec : JobSpec
  pub conditions : List JobCondition
  pub start_time : Option ℕ
  pub completion_time : Option ℕ
  pub succeeded : ℕ
  pub failed : ℕ

-- `active`: the names of the active jobs.
pub record BatchCronJob : Type 0 where
  pub name : String
  pub namespace : String
  pub uid : String
  pub labels : Labels
  pub owner_uids : List String
  pub spec : CronJobSpec
  pub active : List String
  pub last_schedule_time : Option ℕ
  -- status.lastSuccessfulTime
  pub last_successful_time : Option ℕ

-- Objects with metadata and a spec, and nothing else.
abbrev pub new_batch_job : String → String → Labels → JobSpec → BatchJob
new_batch_job name namespace labels spec = record {
  name = name;
  namespace = namespace;
  labels = labels;
  owner_uids = [];
  creation_timestamp = 0;
  spec = spec;
  conditions = [];
  start_time = none;
  completion_time = none;
  succeeded = 0;
  failed = 0;
}

abbrev pub new_batch_cron_job : String → String → Labels → CronJobSpec → BatchCronJob
new_batch_cron_job name namespace labels spec = record {
  name = name;
  namespace = namespace;
  uid = "";
  labels = labels;
  owner_uids = [];
  spec = spec;
  active = [];
  last_schedule_time = none;
  last_successful_time = none;
}
