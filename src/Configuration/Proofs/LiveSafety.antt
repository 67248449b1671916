-- ===== src/Configuration/Proofs/LiveSafety.antt =====
-- About Reconcile of a live object: the order of its calls around the install.
use nio.Prelude.{String, false, [], ◌≡◌, arith}
use nio.Kube.{Message, Result, ok, err}
use nio.Kube.Keeps.{Keeps, Keeps-if, keeps_rules}
use nio.Api.Machine.{Machine}
use nio.Api.Workload.{NixCronJob}
use nio.Api.Configuration.{NixosConfiguration}
use nio.Configuration.State.{St, Reconciler, get_machine, write_config, write_config_status}
use nio.Configuration.Owner.{machine_owner}
use nio.Configuration.Install.{update_working_copy}
use nio.Configuration.DayTwo.{day_two_ready, day_two_converging, follow_day_two, reconcile_day_two}
use nio.Configuration.Removing.{reconcile_removing}
use nio.Configuration.Reconcile.{
  finalizer_written, reconcile_present, with_observed, block, owned_by_other, drive, drive_with,
  run_state_machine, reconcile_live, reconcile_found, reconcile,
}
use nio.Configuration.Proofs.InstallSafety.{
  RetryLaws, Safe, SafeHistory, Keeps-emit, Keeps-ensure_day_two, Keeps-suspend,
  reconcile_install-Safe,
}

module _ (r : Reconciler) where
  Keeps-write_config : Keeps Safe (write_config r)
  Keeps-write_config = record { at = λ s h. ground arith }

  Keeps-write_status : Keeps Safe (write_config_status r)
  Keeps-write_status = record { at = λ s h. ground arith }

  Keeps-get_machine : (ns name : String) → Keeps Safe (get_machine r ns name)
  Keeps-get_machine ns name = record { at = λ s h. h }

  Keeps-owner : Keeps Safe (machine_owner r)
  unfolding machine_owner
  Keeps-owner = record { at = λ s h. ground arith }

  Keeps-block : (reason : String) (m : Message) → Keeps Safe (block r reason m)
  unfolding block
  Keeps-block reason m = record { at = λ s h. (Keeps-suspend r).at _ h }

  Keeps-owned_by_other : (owner : String) → Keeps Safe (owned_by_other r owner)
  unfolding owned_by_other
  Keeps-owned_by_other owner = search (keeps_rules, Keeps-block, Keeps-emit)

  Keeps-follow_day_two :
      (cron : NixCronJob) (machine : Machine) → Keeps Safe (follow_day_two r cron machine)
  unfolding follow_day_two day_two_ready day_two_converging
  Keeps-follow_day_two cron machine = record { at = λ s h. ground arith }

  Keeps-day_two : (machine : Machine) → Keeps Safe (reconcile_day_two r machine)
  unfolding reconcile_day_two
  Keeps-day_two machine = search (keeps_rules, Keeps-ensure_day_two, Keeps-follow_day_two)

  module _ (laws : RetryLaws r.retry_on_conflict) where
    Keeps-drive : (machine : Machine) → Keeps Safe (drive r machine)
    unfolding drive
    Keeps-drive machine =
        search (keeps_rules, Keeps-block, Keeps-day_two, reconcile_install-Safe) depth 7

    Keeps-drive_with : (answer : Result Machine) → Keeps Safe (drive_with r answer)
    Keeps-drive_with (ok machine) = Keeps-drive machine
    Keeps-drive_with (err e) = search (keeps_rules, Keeps-block, Keeps-emit) depth 7

    Keeps-state_machine : Keeps Safe (run_state_machine r)
    unfolding run_state_machine
    Keeps-state_machine =
        search (keeps_rules, Keeps-owner, Keeps-owned_by_other, Keeps-drive_with, Keeps-get_machine)
          depth 7

    Keeps-live : Keeps Safe (reconcile_live r)
    unfolding reconcile_live
    Keeps-live = record {
      at = λ s h. ground (arith, Keeps-state_machine.at (update_working_copy with_observed s).1 h);
    }

    Keeps-finalizer_written : (answer : Result (Unit {0})) → Keeps Safe (finalizer_written r answer)
    Keeps-finalizer_written (ok _) = Keeps-live
    Keeps-finalizer_written (err e) = search keeps_rules

    Keeps-present : Keeps Safe (reconcile_present r)
    unfolding reconcile_present
    Keeps-present =
        search (keeps_rules, Keeps-live, Keeps-write_config, Keeps-finalizer_written) depth 7

    live_object-Safe :
        (s : St) → s.config.is_deleting ≡ false → Safe s → Safe (reconcile_found r s).1
    unfolding reconcile_found
    live_object-Safe s live h =
        (Keeps-if {P = Safe} (reconcile_removing r) (reconcile_present r) s.config.is_deleting
            (λ _. Keeps-present) (λ e. cc)).at
          s h

    -- Whatever the server answers, a reconcile of an object that is not being deleted deletes a
    -- job that succeeded only after a status write that stored the completion of the install.
    pub reconcile-SafeHistory :
        (ns name : String) (config : NixosConfiguration)
        → r.client.get_config [] ns name ≡ ok config
        → config.is_deleting ≡ false
        → SafeHistory (reconcile r ns name).1
    unfolding reconcile
    reconcile-SafeHistory ns name config found live =
        rw found (live_object-Safe (record { config = config; history = [] }) live tt)
