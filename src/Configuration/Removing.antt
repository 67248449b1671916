-- ===== src/Configuration/Removing.antt =====
-- reconcileRemoving and its parts: the decommission of a machine, and the end of the finalizer.
use nio.Prelude.{
  ℕ, ◌+◌, String, true, false, not, [], ◌∷◌, Option, none, some, ltb, leb, ◌==◌, if◌then◌else◌,
}
use nio.Kube.{
  is_conflict, is_not_found, text, sprintf, wrapped, num, message_of, Result, ok, err, Requeue,
  no_requeue, requeue_now, requeue_in,
}
use nio.Kube.Actions.{◌>>=◌, ◌>>◌, pure, fail, attempt, get}
use nio.Api.Workload.{NixJob}
use nio.Api.Machine.{Machine}
use nio.Api.Configuration.{NixosConfiguration}
use nio.Api.ConfigPhase
use nio.Api.Names.{finalizer_name}
use nio.Configuration.State.{
  Step, Reconciler, get_machine, write_config, write_config_status, write_machine_status, emit,
}
use nio.Configuration.Ensure.{
  ensure_decommission_nix_job, find_decommission_job, delete_day_two_cron_if_exists,
  delete_job_if_exists, ignore_not_found,
}
use nio.Configuration.Install.{requeue_interval, update_working_copy, persist}

abbrev pub max_on_remove_retries : ℕ
max_on_remove_retries = 3

abbrev pub with_phase : String → NixosConfiguration → NixosConfiguration
with_phase phase config = record config { status = record config.status { phase = phase } }

abbrev with_decommission_job : String → NixosConfiguration → NixosConfiguration
with_decommission_job name config = record config {
  status = record config.status { decommission_job_ref = name };
}

-- latest.Status.OnRemoveRetries++; latest.Status.Phase = Removing
abbrev pub with_on_remove_retry : NixosConfiguration → NixosConfiguration
with_on_remove_retry latest = record latest {
  status = record latest.status {
    on_remove_retries = latest.status.on_remove_retries + 1;
    phase = ConfigPhase.removing;
  };
}

-- The fields that clearMachineStatus clears.
abbrev pub without_applied : Machine → Machine
without_applied machine = record machine {
  status = record machine.status {
    has_configuration = false;
    applied_configuration = "";
    applied_commit = "";
    last_applied_time = none;
  };
}

module _ (r : Reconciler) where
  abbrev pub without_finalizer : NixosConfiguration → NixosConfiguration
  without_finalizer config = record config {
    finalizers = r.remove_finalizer config.finalizers finalizer_name;
  }

  abbrev soft_conflict : Result (Unit {0}) → Step Requeue
  soft_conflict (ok _) = pure no_requeue
  soft_conflict (err e) = if is_conflict e then pure requeue_now else fail e

  unfoldable pub finalize : Step Requeue
  finalize = do
    update_working_copy without_finalizer
    answer ← attempt (write_config r)
    soft_conflict answer

  abbrev forget_conflict : Result (Unit {0}) → Step (Unit {0})
  forget_conflict (ok _) = pure tt
  forget_conflict (err e) = if is_conflict e then pure tt else fail e

  unfoldable pub status_update : Step (Unit {0})
  status_update = do answer ← attempt (write_config_status r); forget_conflict answer

  unfoldable pub bump_on_remove_retries : Step (Unit {0})
  bump_on_remove_retries = r.retry_on_conflict (persist r with_on_remove_retry)

  abbrev cleared : Result Machine → Step (Unit {0})
  cleared (ok _) = pure tt
  cleared (err e) = ignore_not_found (err e)

  unfoldable pub clear_machine_status : Machine → Step (Unit {0})
  clear_machine_status machine = do
    s ← get
    if not (machine.status.applied_configuration == s.config.name) then pure tt else (do
      answer ← attempt (write_machine_status r (without_applied machine))
      cleared answer)

  -- config.Status.Phase = Removing; statusUpdate; requeue after the interval.
  unfoldable pub keep_removing : Step Requeue
  keep_removing = do
    update_working_copy (with_phase ConfigPhase.removing)
    status_update
    pure (requeue_in requeue_interval)

  -- No decommission job was found: the answer of its creation.
  unfoldable pub decommission_created : Result NixJob → Step Requeue
  decommission_created (err e) = do
    emit true "OnRemoveFlakeSkipped" (wrapped "Cannot run onRemoveFlake: %v" [] (message_of e))
    finalize
  decommission_created (ok job) = do
    update_working_copy (with_decommission_job job.name)
    keep_removing

  unfoldable pub decommission_succeeded : NixJob → Machine → Step Requeue
  decommission_succeeded job machine = do
    clear_machine_status machine
    delete_job_if_exists r job
    emit false "OnRemoveFlakeSucceeded" (text "Decommission flake applied successfully")
    finalize

  abbrev count_failure : NixJob → Step (Unit {0})
  count_failure job =
      if job.is_deleting then pure tt else do bump_on_remove_retries; delete_job_if_exists r job

  unfoldable pub decommission_given_up : NixJob → Machine → Step Requeue
  decommission_given_up job machine = do
    emit true "OnRemoveFlakeFailed" (
        sprintf "Decommission failed after %d attempts; finalizing anyway"
          (num max_on_remove_retries ∷ []))
    clear_machine_status machine
    delete_job_if_exists r job
    finalize

  unfoldable pub decommission_failed : NixJob → Machine → Step Requeue
  decommission_failed job machine = do
    count_failure job
    s ← get
    if leb max_on_remove_retries s.config.status.on_remove_retries
        then decommission_given_up job machine
        else keep_removing

  -- The switch on the status of the decommission job.
  unfoldable pub follow_decommission : NixJob → Machine → Step Requeue
  follow_decommission job machine = do
    update_working_copy (with_decommission_job job.name)
    if ltb 0 job.status.succeeded
        then decommission_succeeded job machine
        else if ltb 0 job.status.failed
        then decommission_failed job machine
        else keep_removing

  abbrev pub decommission_found : Machine → Option NixJob → Step Requeue
  decommission_found machine none = do
    created ← attempt (ensure_decommission_nix_job r machine)
    decommission_created created
  decommission_found machine (some job) = follow_decommission job machine

  -- The machine was found.
  unfoldable pub remove_from : Machine → Step Requeue
  remove_from machine = do
    s ← get
    if s.config.spec.on_remove_flake == ""
        then (do clear_machine_status machine; finalize)
        else (do job ← find_decommission_job r; decommission_found machine job)

  abbrev pub remove_with : Result Machine → Step Requeue
  remove_with (ok machine) = remove_from machine
  remove_with (err e) = if is_not_found e then finalize else fail e

  -- The object still has its finalizer. The error of the deletion is only logged.
  unfoldable pub release : Step Requeue
  release = do
    s ← get
    _ ← attempt (delete_day_two_cron_if_exists r)
    machine ← attempt (get_machine r s.config.namespace s.config.spec.machine_ref)
    remove_with machine

  unfoldable pub reconcile_removing : Step Requeue
  reconcile_removing = do
    s ← get
    if not (r.contains_finalizer s.config.finalizers finalizer_name)
        then pure no_requeue
        else release
