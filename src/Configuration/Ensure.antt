-- ===== src/Configuration/Ensure.antt =====
-- The children: created or updated, looked for, suspended and deleted.
use nio.Prelude.{ℕ, String, Bool, true, false, List, [], ◌∷◌, Option, none, some, if◌then◌else◌}
use nio.Kube.{is_not_found, sprintf, str, Result, ok, err}
use nio.Kube.Actions.{◌>>=◌, ◌>>◌, pure, fail, attempt, lift, get}
use nio.Api.Core.{Labels}
use nio.Api.Workload.{JobSpec, NixJob, NixCronJob}
use nio.Api.Machine.{Machine}
use nio.Api.Configuration.{NixosConfiguration}
use nio.Children.{
  day_two_child_name, build_install_nix_job, build_day_two_nix_cron_job, build_decommission_nix_job,
}
use nio.Configuration.State.{
  Step, Reconciler, get_job, get_cron, list_jobs, create_nix_job, update_nix_job, delete_nix_job,
  create_nix_cron_job, update_nix_cron_job, delete_nix_cron_job, emit,
}

abbrev pub label_machine_name : String
label_machine_name = "nio.homystack.com/machine"

abbrev pub label_config_name : String
label_config_name = "nio.homystack.com/config"

abbrev pub label_operation : String
label_operation = "nio.homystack.com/operation"

abbrev pub operation_decommission : String
operation_decommission = "decommission"

abbrev pub decommission_ttl_seconds : ℕ
decommission_ttl_seconds = 600

unfoldable pub child_labels : NixosConfiguration → Machine → Labels
child_labels config machine =
    (label_config_name, config.name) ∷ (label_machine_name, machine.name) ∷ []

-- desired.Spec.JobTemplate.TTLSecondsAfterFinished = …; the builder always sets the template.
abbrev pub with_ttl : ℕ → Option JobSpec → Option JobSpec
with_ttl ttl none = none
with_ttl ttl (some spec) = some (record spec { ttl_seconds_after_finished = some ttl })

-- An error that says "not found" is as good as none: client.IgnoreNotFound, and
-- `err != nil && !apierrors.IsNotFound(err)`.
abbrev pub ignore_not_found : Result (Unit {0}) → Step (Unit {0})
ignore_not_found (ok _) = pure tt
ignore_not_found (err e) = if is_not_found e then pure tt else fail e

-- cron.Spec.Nix.Suspend = suspend
abbrev pub with_suspend : Bool → NixCronJob → NixCronJob
with_suspend suspend cron = record cron {
  spec = record cron.spec { nix = record cron.spec.nix { suspend = suspend } };
}

abbrev pub first_of_list : List NixJob → Option NixJob
first_of_list [] = none
first_of_list (job ∷ jobs) = some job

module _ (r : Reconciler) where
  abbrev create_or_update_job : NixJob → Result NixJob → Step NixJob
  create_or_update_job desired (err e) = if is_not_found e then create_nix_job r desired else fail e
  create_or_update_job desired (ok existing) =
      if existing.is_deleting
      then pure existing
      else update_nix_job r (record existing { labels = desired.labels; spec = desired.spec })

  unfoldable pub ensure_install_nix_job : Machine → Step NixJob
  ensure_install_nix_job machine = do
    s ← get
    built ← lift (build_install_nix_job s.config machine)
    let labelled = record built { labels = child_labels s.config machine }
    desired ← lift (r.set_job_controller s.config labelled)
    found ← attempt (get_job r desired.namespace desired.name)
    create_or_update_job desired found

  abbrev create_or_update_cron : NixCronJob → Result NixCronJob → Step NixCronJob
  create_or_update_cron desired (err e) =
      if is_not_found e then create_nix_cron_job r desired else fail e
  create_or_update_cron desired (ok existing) =
      if existing.is_deleting
      then pure existing
      else update_nix_cron_job r (record existing { labels = desired.labels; spec = desired.spec })

  unfoldable pub ensure_day_two_nix_cron_job : Machine → Bool → Step NixCronJob
  ensure_day_two_nix_cron_job machine suspend = do
    s ← get
    built ← lift (build_day_two_nix_cron_job s.config machine)
    let labelled = record built { labels = child_labels s.config machine }
    desired ← lift (r.set_cron_controller s.config (with_suspend suspend labelled))
    found ← attempt (get_cron r desired.namespace desired.name)
    create_or_update_cron desired found

  abbrev pub create_if_missing : NixJob → Result NixJob → Step NixJob
  create_if_missing desired (err e) =
      if is_not_found e
      then (do
        created ← create_nix_job r desired
        emit false "OnRemoveFlakeStarted"
            (sprintf "Started decommission job %q" (str created.name ∷ []))
        pure created)
      else fail e
  create_if_missing desired (ok existing) = pure existing

  unfoldable pub ensure_decommission_nix_job : Machine → Step NixJob
  ensure_decommission_nix_job machine = do
    s ← get
    built ← lift (build_decommission_nix_job s.config machine)
    let desired = record built {
      labels =
          (label_config_name, s.config.name)
          ∷ (label_machine_name, machine.name)
          ∷ (label_operation, operation_decommission)
          ∷ [];
      spec = record built.spec {
        job_template = with_ttl decommission_ttl_seconds built.spec.job_template;
      };
    }
    found ← attempt (get_job r desired.namespace desired.name)
    create_if_missing desired found

  unfoldable pub find_decommission_job : Step (Option NixJob)
  find_decommission_job = do
    s ← get
    items ←
        list_jobs r s.config.namespace
          ((label_config_name, s.config.name) ∷ (label_operation, operation_decommission) ∷ [])
    pure (first_of_list items)

  abbrev pub suspend_found : Result NixCronJob → Step (Unit {0})
  suspend_found (err e) = pure tt
  suspend_found (ok cron) =
      if cron.spec.nix.suspend
      then pure tt
      else (do _ ← attempt (update_nix_cron_job r (with_suspend true cron)); pure tt)

  -- Errors are logged by the code, and go no further.
  unfoldable pub suspend_day_two_cron_if_exists : Step (Unit {0})
  suspend_day_two_cron_if_exists = do
    s ← get
    found ← attempt (get_cron r s.config.namespace (day_two_child_name s.config.name))
    suspend_found found

  abbrev delete_found : Result NixCronJob → Step (Unit {0})
  delete_found (err e) = if is_not_found e then pure tt else fail e
  delete_found (ok cron) =
      if cron.is_deleting
      then pure tt
      else (do answer ← attempt (delete_nix_cron_job r cron); ignore_not_found answer)

  unfoldable pub delete_day_two_cron_if_exists : Step (Unit {0})
  delete_day_two_cron_if_exists = do
    s ← get
    found ← attempt (get_cron r s.config.namespace (day_two_child_name s.config.name))
    delete_found found

  -- `if err := r.Delete(ctx, job); err != nil && !apierrors.IsNotFound(err)`, and
  -- deleteDecommissionJob.
  unfoldable pub delete_job_if_exists : NixJob → Step (Unit {0})
  delete_job_if_exists job = do answer ← attempt (delete_nix_job r job); ignore_not_found answer
