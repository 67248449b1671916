-- ===== src/Configuration/Reconcile.antt =====
-- Reconcile and runStateMachine: one reconcile of a NixosConfiguration.
use nio.Prelude.{String, Bool, true, not, ◌&&◌, [], ◌∷◌, ◌==◌, if◌then◌else◌}
use nio.Kube.{
  is_conflict, is_not_found, Message, sprintf, str, Result, ok, err, Requeue, no_requeue,
  requeue_now, requeue_in,
}
use nio.Kube.Actions.{◌>>=◌, ◌>>◌, pure, fail, attempt, lift, get}
use nio.Api.Machine.{Machine}
use nio.Api.Configuration.{NixosConfiguration}
use nio.Api.Names.{finalizer_name, reason_machine_in_use, reason_machine_not_ready}
use nio.Client.{History}
use nio.Configuration.State.{Step, Reconciler, get_machine, write_config, write_config_status, emit}
use nio.Configuration.Phase.{set_blocked}
use nio.Configuration.Owner.{machine_owner}
use nio.Configuration.Ensure.{suspend_day_two_cron_if_exists}
use nio.Configuration.Install.{requeue_interval, update_working_copy, reconcile_install}
use nio.Configuration.DayTwo.{reconcile_day_two}
use nio.Configuration.Removing.{reconcile_removing}

abbrev with_target : String → NixosConfiguration → NixosConfiguration
with_target name config = record config { status = record config.status { target_machine = name } }

abbrev pub with_observed : NixosConfiguration → NixosConfiguration
with_observed config = record config {
  status = record config.status { observed_generation = config.generation };
}

module _ (r : Reconciler) where
  -- setBlocked, suspend the day-2 cron.
  unfoldable pub block : String → Message → Step (Unit {0})
  block reason msg = do
    update_working_copy (set_blocked r reason msg)
    suspend_day_two_cron_if_exists r

  -- The uniqueness gate.
  unfoldable pub owned_by_other : String → Step Requeue
  owned_by_other owner = do
    s ← get
    let msg =
        sprintf "machine %q already owned by NixosConfiguration %q"
          (str s.config.spec.machine_ref ∷ str owner ∷ [])
    block reason_machine_in_use msg
    emit true "MachineOwned" msg
    pure (requeue_in requeue_interval)

  -- What reconcileInstall answered: the day-2 path follows once the install is done.
  abbrev after_install : Machine → Bool × Requeue → Step Requeue
  after_install machine (done, requeue) = if done then reconcile_day_two r machine else pure requeue

  -- The machine was found.
  unfoldable pub drive : Machine → Step Requeue
  drive machine =
      if not machine.status.discoverable
      then (do
        block reason_machine_not_ready
            (sprintf "Machine %q is not reachable via SSH" (str machine.name ∷ []))
        pure (requeue_in requeue_interval))
      else (do
        update_working_copy (with_target machine.name)
        s ← get
        if s.config.spec.full_install && not s.config.status.full_disk_install_completed
            then (do answer ← reconcile_install r machine; after_install machine answer)
            else reconcile_day_two r machine)

  -- The machine gate.
  abbrev pub drive_with : Result Machine → Step Requeue
  drive_with (ok machine) = drive machine
  drive_with (err e) =
      if is_not_found e
      then (do
        s ← get
        let msg = sprintf "Machine %q not found" (str s.config.spec.machine_ref ∷ [])
        block reason_machine_not_ready msg
        emit true "MachineNotFound" msg
        pure (requeue_in requeue_interval))
      else fail e

  unfoldable pub run_state_machine : Step Requeue
  run_state_machine = do
    owner ← machine_owner r
    s ← get
    if not (owner == s.config.name) then owned_by_other owner else (do
      machine ← attempt (get_machine r s.config.namespace s.config.spec.machine_ref)
      drive_with machine)

  -- The one status write at the end, and the answer of the state machine.
  abbrev finish : Result Requeue → Result (Unit {0}) → Step Requeue
  finish answer (ok _) = lift answer
  finish answer (err e) = if is_conflict e then pure requeue_now else fail e

  -- A live object that has its finalizer.
  unfoldable pub reconcile_live : Step Requeue
  reconcile_live = do
    update_working_copy with_observed
    answer ← attempt (run_state_machine)
    written ← attempt (write_config_status r)
    finish answer written

  abbrev with_finalizer : NixosConfiguration → NixosConfiguration
  with_finalizer config = record config {
    finalizers = r.add_finalizer config.finalizers finalizer_name;
  }

  abbrev pub finalizer_written : Result (Unit {0}) → Step Requeue
  finalizer_written (ok _) = reconcile_live
  finalizer_written (err e) = if is_conflict e then pure requeue_now else fail e

  -- The object is not being deleted.
  unfoldable pub reconcile_present : Step Requeue
  reconcile_present = do
    s ← get
    if r.contains_finalizer s.config.finalizers finalizer_name then reconcile_live else (do
      update_working_copy with_finalizer
      written ← attempt (write_config r)
      finalizer_written written)

  -- The object was found.
  unfoldable pub reconcile_found : Step Requeue
  reconcile_found = do
    s ← get
    if s.config.is_deleting then reconcile_removing r else reconcile_present

  abbrev start : Result NixosConfiguration → Result Requeue × History
  start (ok config) =
      let done = reconcile_found (record { config = config; history = [] }) in
      (done.0, done.1.history)
  start (err e) = (if is_not_found e then ok no_requeue else err e, [])

  -- Reconcile, by the namespace and the name of the request.
  unfoldable pub reconcile : String → String → Result Requeue × History
  reconcile ns name = start (r.client.get_config [] ns name)
