-- ===== src/Configuration/State.antt =====
-- The reconciler of NixosConfigurations, its working copy of the object, and its calls.
use nio.Prelude.{String, Bool, List, ◌∷◌, Option, none, some}
use nio.Kube.{Error, Message, Result, ok, err}
use nio.Kube.Conditions.{Meta}
use nio.Kube.Times.{Times}
use nio.Kube.Actions.{Action}
use nio.Api.Core.{Labels}
use nio.Api.Workload.{NixJob, NixCronJob}
use nio.Api.Machine.{Machine}
use nio.Api.Configuration.{NixosConfiguration, NixosConfigurationStatus}
use nio.Client.{
  Call, create_job, update_job, delete_job, create_cron, update_cron, delete_cron, update_config,
  update_config_status, update_machine_status, record_event, History, Client, failure_of,
}

-- The working copy that a reconcile changes in place, and the calls made so far.
pub record St : Type 0 where
  pub config : NixosConfiguration
  pub history : History

abbrev pub Step : Type 0 → Type 0
Step A = Action St A

-- NixosConfigurationReconciler, with the library calls that it makes: `retry_on_conflict` is
-- client-go's `retry.RetryOnConflict` with `retry.DefaultRetry`.
pub record Reconciler : Type 0 where
  pub client : Client
  pub open client use *
  pub meta : Meta
  pub open meta use *
  pub times : Times
  pub retry_on_conflict : Step (Unit {0}) → Step (Unit {0})

abbrev pub logged : Call → Option Error → St → St
logged c e s = record s { history = record { call = c; failure = e } ∷ s.history }

abbrev pub set_config : NixosConfiguration → St → St
set_config c s = record s { config = c }

abbrev pub set_status : NixosConfigurationStatus → St → St
set_status st s = record s { config = record s.config { status = st } }

-- A call that returns the stored object.
abbrev pub stored : {A : Type 0} → Call → Result A → Step A
stored c answer s = (answer, logged c (failure_of answer) s)

-- A call that returns only an error.
abbrev pub answered : Call → Option Error → Step (Unit {0})
answered c none s = (ok tt, logged c none s)
answered c (some e) s = (err e, logged c (some e) s)

-- A write of the working copy, which the stored object replaces.
abbrev pub replaced : Call → Result NixosConfiguration → Step (Unit {0})
replaced c (ok stored) s = (ok tt, set_config stored (logged c none s))
replaced c (err e) s = (err e, logged c (some e) s)

-- Recorder.Event
abbrev pub emit : Bool → String → Message → Step (Unit {0})
emit warning reason message = answered (record_event warning reason message) none

module _ (r : Reconciler) where
  abbrev pub get_machine : String → String → Step Machine
  get_machine ns name s = (r.client.get_machine s.history ns name, s)

  abbrev pub get_job : String → String → Step NixJob
  get_job ns name s = (r.client.get_job s.history ns name, s)

  abbrev pub get_cron : String → String → Step NixCronJob
  get_cron ns name s = (r.client.get_cron s.history ns name, s)

  abbrev pub get_latest : String → String → Step NixosConfiguration
  get_latest ns name s = (r.client.get_config s.history ns name, s)

  abbrev pub list_configs : String → Step (List NixosConfiguration)
  list_configs ns s = (r.client.list_configs s.history ns, s)

  abbrev pub list_jobs : String → Labels → Step (List NixJob)
  list_jobs ns labels s = (r.client.list_jobs s.history ns labels, s)

  abbrev pub create_nix_job : NixJob → Step NixJob
  create_nix_job job s = stored (create_job job) (r.client.create_job s.history job) s

  abbrev pub update_nix_job : NixJob → Step NixJob
  update_nix_job job s = stored (update_job job) (r.client.update_job s.history job) s

  abbrev pub delete_nix_job : NixJob → Step (Unit {0})
  delete_nix_job job s = answered (delete_job job) (r.client.delete_job s.history job) s

  abbrev pub create_nix_cron_job : NixCronJob → Step NixCronJob
  create_nix_cron_job cron s = stored (create_cron cron) (r.client.create_cron s.history cron) s

  abbrev pub update_nix_cron_job : NixCronJob → Step NixCronJob
  update_nix_cron_job cron s = stored (update_cron cron) (r.client.update_cron s.history cron) s

  abbrev pub delete_nix_cron_job : NixCronJob → Step (Unit {0})
  delete_nix_cron_job cron s = answered (delete_cron cron) (r.client.delete_cron s.history cron) s

  -- r.Update(ctx, config)
  abbrev pub write_config : Step (Unit {0})
  write_config s = replaced (update_config s.config) (r.client.update_config s.history s.config) s

  -- r.Status().Update(ctx, config)
  abbrev pub write_config_status : Step (Unit {0})
  write_config_status s =
      replaced (update_config_status s.config) (r.client.update_config_status s.history s.config) s

  -- r.Status().Update(ctx, &latest), for a copy other than the working copy
  abbrev pub write_status_of : NixosConfiguration → Step NixosConfiguration
  write_status_of latest s =
      stored (update_config_status latest) (r.client.update_config_status s.history latest) s

  -- r.Status().Update(ctx, machine)
  abbrev pub write_machine_status : Machine → Step Machine
  write_machine_status machine s =
      stored (update_machine_status machine) (r.client.update_machine_status s.history machine) s
