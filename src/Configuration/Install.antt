-- ===== src/Configuration/Install.antt =====
-- reconcileInstall and markFullDiskInstallCompleted: the one-shot full-disk install.
use nio.Prelude.{
  ℕ, ◌+◌, String, Bool, true, false, not, [], ◌∷◌, none, ltb, leb, ◌==◌, if◌then◌else◌,
}
use nio.Kube.{Message, sprintf, str, num, Requeue, no_requeue, requeue_in}
use nio.Kube.Actions.{◌>>=◌, ◌>>◌, pure, get, modify}
use nio.Api.Workload.{NixJob}
use nio.Api.Machine.{Machine}
use nio.Api.Configuration.{NixosConfiguration}
use nio.Api.ConfigPhase
use nio.Api.Names.{reason_installing}
use nio.Configuration.State.{Step, Reconciler, set_config, get_latest, write_status_of, emit}
use nio.Configuration.Phase.{set_phase, set_degraded}
use nio.Configuration.Ensure.{ensure_install_nix_job, delete_job_if_exists}

-- Seconds.
abbrev pub requeue_interval : ℕ
requeue_interval = 30

abbrev pub max_install_retries : ℕ
max_install_retries = 3

abbrev pub update_working_copy : (NixosConfiguration → NixosConfiguration) → Step (Unit {0})
update_working_copy change = modify (λ s. set_config (change s.config) s)

-- config.Status = latest.Status; config.ResourceVersion = latest.ResourceVersion
abbrev pub synced_with : NixosConfiguration → NixosConfiguration → NixosConfiguration
synced_with latest config = record config {
  status = latest.status;
  resource_version = latest.resource_version;
}

-- The body of the RetryOnConflict calls: a change to the status of the latest object.
abbrev pub persist : Reconciler → (NixosConfiguration → NixosConfiguration) → Step (Unit {0})
persist r change = do
  s ← get
  latest ← get_latest r s.config.namespace s.config.name
  updated ← write_status_of r (change latest)
  update_working_copy (synced_with updated)

abbrev pub with_completed : NixosConfiguration → NixosConfiguration
with_completed latest = record latest {
  status = record latest.status { full_disk_install_completed = true; install_job_ref = "" };
}

abbrev with_install_job : String → NixosConfiguration → NixosConfiguration
with_install_job name config = record config {
  status = record config.status { install_job_ref = name };
}

-- config.Status.InstallRetries++, below the cap.
abbrev pub with_install_retry : NixosConfiguration → NixosConfiguration
with_install_retry config = record config {
  status = record config.status { install_retries = config.status.install_retries + 1 };
}

module _ (r : Reconciler) where
  unfoldable pub mark_full_disk_install_completed : Step (Unit {0})
  mark_full_disk_install_completed = r.retry_on_conflict (persist r with_completed)

  abbrev pub install_reported : NixJob → Step (Bool × Requeue)
  install_reported job = do
    emit false "InstallSucceeded" (sprintf "Full-disk install %q succeeded" (str job.name ∷ []))
    pure (true, no_requeue)

  -- The branch for `job.Status.Succeeded > 0`.
  unfoldable pub install_succeeded : NixJob → Step (Bool × Requeue)
  install_succeeded job = do
    mark_full_disk_install_completed
    delete_job_if_exists r job
    install_reported job

  -- Whether to report the failure as an event: only on the way into Degraded.
  abbrev emit_if : Bool → String → Message → Step (Unit {0})
  emit_if due reason msg = if due then emit true reason msg else pure tt

  -- At the cap.
  unfoldable pub install_given_up : Step (Bool × Requeue)
  install_given_up = do
    let msg = sprintf "Full-disk install failed after %d retries" (num max_install_retries ∷ [])
    s ← get
    emit_if (not (s.config.status.phase == ConfigPhase.degraded)) "InstallFailed" msg
    update_working_copy (set_degraded r msg false)
    pure (false, no_requeue)

  -- setPhase after the deletion that makes the next reconcile create the child anew.
  abbrev pub install_recreated : Step (Bool × Requeue)
  install_recreated = do
    s ← get
    let msg =
        sprintf "Retrying full-disk install (attempt %d/%d)"
          (num s.config.status.install_retries ∷ num max_install_retries ∷ [])
    update_working_copy (set_phase r ConfigPhase.installing reason_installing msg false none)
    pure (false, requeue_in requeue_interval)

  -- Below the cap.
  unfoldable pub install_retried : NixJob → Step (Bool × Requeue)
  install_retried job = do
    update_working_copy with_install_retry
    delete_job_if_exists r job
    install_recreated

  abbrev installing : String → NixJob → Step (Bool × Requeue)
  installing format job = do
    let msg = sprintf format (str job.name ∷ [])
    update_working_copy (set_phase r ConfigPhase.installing reason_installing msg false none)
    pure (false, requeue_in requeue_interval)

  -- The branch for `job.Status.Failed > 0`.
  unfoldable pub install_failed : NixJob → Step (Bool × Requeue)
  install_failed job =
      if job.is_deleting then installing "Full-disk install %q is being retried" job else do
        s ← get
        if leb max_install_retries s.config.status.install_retries
            then install_given_up
            else install_retried job

  -- The switch on the status of the child.
  unfoldable pub follow_install : NixJob → Step (Bool × Requeue)
  follow_install job =
      if ltb 0 job.status.succeeded
      then install_succeeded job
      else if ltb 0 job.status.failed
      then install_failed job
      else installing "Full-disk install %q is running" job

  unfoldable pub reconcile_install : Machine → Step (Bool × Requeue)
  reconcile_install machine = do
    job ← ensure_install_nix_job r machine
    update_working_copy (with_install_job job.name)
    follow_install job
