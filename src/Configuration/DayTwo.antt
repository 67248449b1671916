-- ===== src/Configuration/DayTwo.antt =====
-- reconcileDayTwo and writeBackMachineStatus: the recurring convergence child.
use nio.Prelude.{
  ℕ, Bool, true, false, ◌&&◌, ◌||◌, [], Option, none, some, is_some, ◌==◌, if◌then◌else◌,
}
use nio.Kube.{
  is_conflict, Message, text, wrapped, Result, ok, err, Requeue, requeue_now, requeue_in,
}
use nio.Kube.Conditions.{Condition}
use nio.Kube.Actions.{◌>>=◌, ◌>>◌, pure, fail, attempt, get}
use nio.Api.Workload.{NixCronJob}
use nio.Api.Machine.{Machine}
use nio.Api.Configuration.{NixosConfiguration}
use nio.Api.ConfigPhase
use nio.Api.Names.{
  condition_git_synced, reason_succeeded, reason_converging, phase_ready, phase_degraded,
  phase_failed,
}
use nio.Converge.{converge_stall}
use nio.Configuration.State.{Step, Reconciler, write_machine_status}
use nio.Configuration.Phase.{set_phase, set_degraded}
use nio.Configuration.Ensure.{ensure_day_two_nix_cron_job}
use nio.Configuration.Install.{requeue_interval, update_working_copy}

abbrev with_cron : NixCronJob → NixosConfiguration → NixosConfiguration
with_cron cron config = record config {
  status = record config.status {
    day_two_cron_job_ref = cron.name;
    resolved_revision = cron.status.workload.rolled_out_revision;
  };
}

abbrev pub with_last_applied : Option ℕ → NixosConfiguration → NixosConfiguration
with_last_applied time config = record config {
  status = record config.status { last_applied_time = time };
}

-- The fields that writeBackMachineStatus sets.
abbrev pub with_applied : NixosConfiguration → Machine → Machine
with_applied config machine = record machine {
  status = record machine.status {
    has_configuration = true;
    applied_configuration = config.name;
    applied_commit = config.status.resolved_revision;
    last_applied_time = config.status.last_applied_time;
  };
}

-- A configuration is on the machine.
abbrev pub is_applied : NixosConfiguration → NixCronJob → Bool
is_applied config cron =
    config.status.full_disk_install_completed || is_some cron.status.last_successful_time

module _ (r : Reconciler) where
  abbrev pub written_back : Result Machine → Step Requeue
  written_back (ok _) = pure (requeue_in requeue_interval)
  written_back (err e) = if is_conflict e then pure requeue_now else fail e

  -- Ready, with a successful run.
  unfoldable pub day_two_ready : NixCronJob → Machine → Option Condition → Step Requeue
  day_two_ready cron machine git_synced = do
    update_working_copy (with_last_applied cron.status.last_successful_time)
    update_working_copy (
        set_phase r ConfigPhase.ready reason_succeeded
          (text "Day-2 convergence healthy; configuration applied") true git_synced)
    s ← get
    answer ← attempt (write_machine_status r (with_applied s.config machine))
    written_back answer

  abbrev degraded : Message → Bool → Step Requeue
  degraded msg applied = do
    update_working_copy (set_degraded r msg applied)
    pure (requeue_in requeue_interval)

  abbrev note_success : Option ℕ → Step (Unit {0})
  note_success none = pure tt
  note_success (some t) = update_working_copy (with_last_applied (some t))

  unfoldable pub day_two_converging : NixCronJob → Bool → Option Condition → Step Requeue
  day_two_converging cron applied git_synced = do
    note_success cron.status.last_successful_time
    update_working_copy (
        set_phase r ConfigPhase.converging reason_converging (text "Day-2 convergence in progress")
          applied git_synced)
    pure (requeue_in requeue_interval)

  -- The cases after the first one of the switch on the state of the child.
  abbrev pub day_two_other : Option Condition → NixCronJob → Bool → Option Condition → Step Requeue
  day_two_other (some stall) cron applied git_synced =
      degraded (wrapped "Day-2 convergence is stalled: " [] stall.message) applied
  day_two_other none cron applied git_synced =
      if cron.status.workload.phase == phase_degraded || cron.status.workload.phase == phase_failed
      then degraded (text "Day-2 convergence run failed") applied
      else day_two_converging cron applied git_synced

  unfoldable pub follow_day_two : NixCronJob → Machine → Step Requeue
  follow_day_two cron machine = do
    s ← get
    let git_synced = r.find_status_condition cron.status.workload.conditions condition_git_synced
    let applied = is_applied s.config cron
    if cron.status.workload.phase == phase_ready && is_some cron.status.last_successful_time
        then day_two_ready cron machine git_synced
        else day_two_other (converge_stall r.meta cron true) cron applied git_synced

  unfoldable pub reconcile_day_two : Machine → Step Requeue
  reconcile_day_two machine = do
    cron ← ensure_day_two_nix_cron_job r machine false
    update_working_copy (with_cron cron)
    follow_day_two cron machine
