-- ===== src/Client.antt =====
-- The API server, as the controllers see it through controller-runtime's client. What the server
-- answers is not code of this repository: it is a record of functions of the calls made so far, so
-- that a server that changes between two calls of one reconcile is covered.
use nio.Prelude.{String, Bool, List, Option, none, some}
use nio.Kube.{Error, Message, Result, ok, err}
use nio.Api.Core.{Labels}
use nio.Api.Workload.{NixJob, NixCronJob}
use nio.Api.Machine.{Machine}
use nio.Api.Configuration.{NixosConfiguration}

-- The calls that write, and the events that are recorded.
pub data Call : Type 0 where
  create_job update_job delete_job : NixJob → Call
  create_cron update_cron delete_cron : NixCronJob → Call
  update_config update_config_status : NixosConfiguration → Call
  update_machine_status : Machine → Call
  -- r.Recorder.Event: whether it is a warning, its reason, its text
  record_event : Bool → String → Message → Call

-- A call, and the error that it returned.
pub record Event : Type 0 where
  pub call : Call
  pub failure : Option Error

-- The calls of one reconcile, the latest first.
abbrev pub History : Type 0
History = List Event

pub record Client : Type 0 where
  -- Get, by namespace and name
  pub get_config : History → String → String → Result NixosConfiguration
  pub get_machine : History → String → String → Result Machine
  pub get_job : History → String → String → Result NixJob
  pub get_cron : History → String → String → Result NixCronJob
  -- List, by namespace (and labels)
  pub list_configs : History → String → Result (List NixosConfiguration)
  pub list_jobs : History → String → Labels → Result (List NixJob)
  -- Create, Update and Status().Update leave the stored object in their argument.
  pub create_job : History → NixJob → Result NixJob
  pub update_job : History → NixJob → Result NixJob
  pub delete_job : History → NixJob → Option Error
  pub create_cron : History → NixCronJob → Result NixCronJob
  pub update_cron : History → NixCronJob → Result NixCronJob
  pub delete_cron : History → NixCronJob → Option Error
  pub update_config : History → NixosConfiguration → Result NixosConfiguration
  pub update_config_status : History → NixosConfiguration → Result NixosConfiguration
  pub update_machine_status : History → Machine → Result Machine
  -- controllerutil.SetControllerReference
  pub set_job_controller : NixosConfiguration → NixJob → Result NixJob
  pub set_cron_controller : NixosConfiguration → NixCronJob → Result NixCronJob
  -- controllerutil.ContainsFinalizer, AddFinalizer, RemoveFinalizer
  pub contains_finalizer : List String → String → Bool
  pub add_finalizer : List String → String → List String
  pub remove_finalizer : List String → String → List String

abbrev pub failure_of {ℓ} : {A : Type ℓ} → Result A → Option Error
failure_of (ok a) = none
failure_of (err e) = some e
