-- ===== src/Configuration/Proofs/Decommission.antt =====
-- About reconcileRemoving: which jobs the removal of a configuration creates.
use nio.Prelude.{
  String, Bool, false, [], ◌∷◌, Option, none, some, ◌≡◌, refl, ◌∙◌, subst, arith, ◌==◌, Bool-cases,
  inl, inr,
}
use nio.Kube.{Message, Result, ok, err}
use nio.Kube.Actions.{◌>>=◌, attempt}
use nio.Kube.Keeps.{Keeps, Keeps-after, keeps_rules}
use nio.Kube.Binds.{Result-cases}
use nio.Api.Workload.{NixJob}
use nio.Api.Machine.{Machine}
use nio.Api.Configuration.{NixosConfiguration}
use nio.Configuration.State.{St, Reconciler, emit}
use nio.Configuration.Ensure.{
  delete_job_if_exists, delete_day_two_cron_if_exists, find_decommission_job,
  ensure_decommission_nix_job, label_config_name, label_operation, operation_decommission,
}
use nio.Configuration.Install.{update_working_copy, persist}
use nio.Configuration.Removing.{
  with_on_remove_retry, finalize, status_update, bump_on_remove_retries, clear_machine_status,
  keep_removing, decommission_created, decommission_succeeded, decommission_given_up,
  decommission_failed, follow_decommission, decommission_found, remove_from, remove_with, release,
  reconcile_removing,
}
use nio.Configuration.Proofs.InstallSafety.{RetryLaws}
use nio.Configuration.Proofs.Waking.{CreatesOnly, ensure_decommission_nix_job-CreatesOnly}

module _ (r : Reconciler) (laws : RetryLaws r.retry_on_conflict) (config : NixosConfiguration) where
  abbrev Safe : St → Type 0
  Safe s = CreatesOnly config s.history

  Keeps-emit : (w : Bool) (reason : String) (m : Message) → Keeps Safe (emit w reason m)
  Keeps-emit w reason m = record { at = λ s h. (tt, h) }

  Keeps-update : (f : NixosConfiguration → NixosConfiguration) → Keeps Safe (update_working_copy f)
  Keeps-update f = record { at = λ s h. h }

  Keeps-persist : (f : NixosConfiguration → NixosConfiguration) → Keeps Safe (persist r f)
  Keeps-persist f = record { at = λ s h. ground arith }

  Keeps-bump : Keeps Safe (bump_on_remove_retries r)
  unfolding bump_on_remove_retries
  Keeps-bump =
      laws.only_runs Safe (persist r with_on_remove_retry) (Keeps-persist with_on_remove_retry)

  Keeps-status_update : Keeps Safe (status_update r)
  unfolding status_update
  Keeps-status_update = record { at = λ s h. ground arith }

  Keeps-finalize : Keeps Safe (finalize r)
  unfolding finalize
  Keeps-finalize = record { at = λ s h. ground arith }

  Keeps-delete : (job : NixJob) → Keeps Safe (delete_job_if_exists r job)
  unfolding delete_job_if_exists
  Keeps-delete job = record { at = λ s h. ground arith }

  Keeps-delete_day_two : Keeps Safe (delete_day_two_cron_if_exists r)
  unfolding delete_day_two_cron_if_exists
  Keeps-delete_day_two = record { at = λ s h. ground arith }

  config-delete_day_two : (s : St) → (delete_day_two_cron_if_exists r s).1.config ≡ s.config
  unfolding delete_day_two_cron_if_exists
  config-delete_day_two s = ground arith

  Keeps-clear : (machine : Machine) → Keeps Safe (clear_machine_status r machine)
  unfolding clear_machine_status
  Keeps-clear machine = record { at = λ s h. ground arith }

  Keeps-keep_removing : Keeps Safe (keep_removing r)
  unfolding keep_removing
  Keeps-keep_removing = search (keeps_rules, Keeps-update, Keeps-status_update) depth 7

  Keeps-created : (answer : Result NixJob) → Keeps Safe (decommission_created r answer)
  unfolding decommission_created
  Keeps-created (ok job) = search (keeps_rules, Keeps-update, Keeps-keep_removing) depth 7
  Keeps-created (err e) = search (keeps_rules, Keeps-emit, Keeps-finalize) depth 7

  Keeps-succeeded :
      (job : NixJob) (machine : Machine) → Keeps Safe (decommission_succeeded r job machine)
  unfolding decommission_succeeded
  Keeps-succeeded job machine =
      search (keeps_rules, Keeps-clear, Keeps-delete, Keeps-emit, Keeps-finalize) depth 9

  Keeps-given_up :
      (job : NixJob) (machine : Machine) → Keeps Safe (decommission_given_up r job machine)
  unfolding decommission_given_up
  Keeps-given_up job machine =
      search (keeps_rules, Keeps-clear, Keeps-delete, Keeps-emit, Keeps-finalize) depth 9

  Keeps-failed : (job : NixJob) (machine : Machine) → Keeps Safe (decommission_failed r job machine)
  unfolding decommission_failed
  Keeps-failed job machine =
      search (keeps_rules, Keeps-bump, Keeps-delete, Keeps-given_up, Keeps-keep_removing) depth 9

  Keeps-follow : (job : NixJob) (machine : Machine) → Keeps Safe (follow_decommission r job machine)
  unfolding follow_decommission
  Keeps-follow job machine =
      search (keeps_rules, Keeps-update, Keeps-succeeded, Keeps-failed, Keeps-keep_removing) depth 9

  -- With the working copy as it was read, and a name.
  module _ (named : (config.name == "") ≡ false) where
    ensure_lem :
        (machine : Machine) (s : St)
        → s.config ≡ config
        → Safe s
        → Safe (ensure_decommission_nix_job r machine s).1
    ensure_lem machine s same h =
        subst
          (λ c.
            (c.name == "") ≡ false
            → CreatesOnly c s.history
            → CreatesOnly c (ensure_decommission_nix_job r machine s).1.history)
          same (ensure_decommission_nix_job-CreatesOnly r machine s) named h

    found-CreatesOnly :
        (machine : Machine) (found : Option NixJob) (s : St)
        → s.config ≡ config
        → Safe s
        → Safe (decommission_found r machine found s).1
    found-CreatesOnly machine none s same h =
        Keeps-after (attempt (ensure_decommission_nix_job r machine)) (decommission_created r) s
          (ensure_lem machine s same h) Keeps-created
    found-CreatesOnly machine (some job) s same h = (Keeps-follow job machine).at s h

    flake-CreatesOnly :
        (machine : Machine) (s : St)
        → s.config ≡ config
        → Safe s
        → Safe ((find_decommission_job r >>= decommission_found r machine) s).1
    unfolding find_decommission_job
    flake-CreatesOnly machine s same h =
        elim (Result-cases (
          r.client.list_jobs s.history s.config.namespace (
            (label_config_name, s.config.name) ∷ (label_operation, operation_decommission) ∷ []))) [
              | inl (jobs, e) ↦ rw e (found-CreatesOnly machine _ s same h)
              | inr (x, e) ↦ rw e h
            ]

    remove_from-CreatesOnly :
        (machine : Machine) (s : St) → s.config ≡ config → Safe s → Safe (remove_from r machine s).1
    unfolding remove_from
    remove_from-CreatesOnly machine s same h =
        elim (Bool-cases (s.config.spec.on_remove_flake == "")) [
          | inl e ↦ rw e (
              Keeps-after (clear_machine_status r machine) (λ _. finalize r) s
                ((Keeps-clear machine).at s h) (λ _. Keeps-finalize))
          | inr e ↦ rw e (flake-CreatesOnly machine s same h)
        ]

    remove_with-CreatesOnly :
        (answer : Result Machine) (s : St)
        → s.config ≡ config
        → Safe s
        → Safe (remove_with r answer s).1
    remove_with-CreatesOnly (ok machine) s same h = remove_from-CreatesOnly machine s same h
    remove_with-CreatesOnly (err e) s same h = by.at s h
      where
        by : Keeps Safe (remove_with r (err e))
        by = search (keeps_rules, Keeps-finalize)

    release-CreatesOnly : (s : St) → s.config ≡ config → Safe s → Safe (release r s).1
    unfolding release
    release-CreatesOnly s same h =
        remove_with-CreatesOnly _ (delete_day_two_cron_if_exists r s).1
          (config-delete_day_two s ∙ same) (Keeps-delete_day_two.at s h)

-- Removing a configuration creates no other job than one that has no owner, so that it is not
-- deleted along with the configuration, and whose events are mapped to exactly this configuration,
-- so that the removal goes on when the job ends: over the whole of reconcileRemoving, and whatever
-- the server answers. It supposes that the configuration has a name, and that a retry of a write
-- only runs the body that it is given.
pub reconcile_removing-CreatesOnly :
    (r : Reconciler) (laws : RetryLaws r.retry_on_conflict) (s : St)
    → (s.config.name == "") ≡ false
    → CreatesOnly s.config s.history
    → CreatesOnly s.config (reconcile_removing r s).1.history
unfolding reconcile_removing
reconcile_removing-CreatesOnly r laws s named h =
    ground (arith, release-CreatesOnly r laws s.config named s refl h)
