-- ===== src/Configuration/Proofs/Removal.antt =====
-- About reconcileRemoving: when the finalizer of a configuration may go.
use nio.Prelude.{
  ◌<◌, String, Bool, true, false, List, [], ◌∷◌, none, some, ◌≡◌, ◌⊎◌, inl, inr, sym, subst, arith,
  ltb, ◌==◌, if◌then◌else◌,
}
use nio.Kube.{Message, ok, is_not_found}
use nio.Kube.Actions.{◌>>◌}
use nio.Kube.Keeps.{Keeps, Keeps-bind, keeps_rules}
use nio.Kube.Binds.{bind-ok, bind-err, Result-cases}
use nio.Api.Core.{Labels}
use nio.Api.Workload.{NixJob}
use nio.Api.Machine.{Machine}
use nio.Api.Configuration.{NixosConfiguration}
use nio.Client.{update_config, delete_job, Event, History}
use nio.Configuration.State.{St, Step, Reconciler, emit}
use nio.Configuration.Ensure.{
  label_config_name, label_operation, operation_decommission, delete_job_if_exists,
  delete_day_two_cron_if_exists, find_decommission_job,
}
use nio.Configuration.Install.{update_working_copy, persist}
use nio.Configuration.Removing.{
  with_on_remove_retry, finalize, status_update, bump_on_remove_retries, clear_machine_status,
  keep_removing, decommission_succeeded, decommission_given_up, decommission_failed,
  follow_decommission, remove_from, release, reconcile_removing,
}
use nio.Configuration.Reconcile.{reconcile_present, reconcile_found, reconcile}
use nio.Configuration.Proofs.InstallSafety.{RetryLaws}

module _ (job : NixJob) where
  -- A deletion of the job, after which it is gone.
  abbrev pub DeletesJob : Event → Type 0
  DeletesJob e = elim e.call [
    | delete_job j ↦
        (j ≡ job) × (elim e.failure [ none ↦ Unit {0} | some x ↦ is_not_found x ≡ true ])
    | _ ↦ ⊥
  ]

  abbrev pub HasDeleted : History → Type 0
  HasDeleted [] = ⊥
  HasDeleted (e ∷ h) = DeletesJob e ⊎ HasDeleted h

  -- A write of the object itself, which is how the finalizer goes, comes after the job has ended
  -- and was deleted.
  abbrev pub IsLate : Event → History → Type 0
  IsLate e h = elim e.call [
    | update_config c ↦ ((0 < job.status.succeeded) ⊎ (0 < job.status.failed)) × HasDeleted h
    | _ ↦ Unit {0}
  ]

  abbrev pub ReleasesAfter : History → Type 0
  ReleasesAfter [] = Unit {0}
  ReleasesAfter (e ∷ h) = IsLate e h × ReleasesAfter h

  abbrev pub Ordered : St → Type 0
  Ordered s = ReleasesAfter s.history

  module _ (r : Reconciler) where
    Keeps-emit : (w : Bool) (reason : String) (m : Message) → Keeps Ordered (emit w reason m)
    Keeps-emit w reason m = record { at = λ s h. (tt, h) }

    Keeps-update :
        (f : NixosConfiguration → NixosConfiguration) → Keeps Ordered (update_working_copy f)
    Keeps-update f = record { at = λ s h. h }

    Keeps-persist : (f : NixosConfiguration → NixosConfiguration) → Keeps Ordered (persist r f)
    Keeps-persist f = record { at = λ s h. ground arith }

    Keeps-status_update : Keeps Ordered (status_update r)
    unfolding status_update
    Keeps-status_update = record { at = λ s h. ground arith }

    Keeps-delete : Keeps Ordered (delete_job_if_exists r job)
    unfolding delete_job_if_exists
    Keeps-delete = record { at = λ s h. ground arith }

    Keeps-delete_day_two : Keeps Ordered (delete_day_two_cron_if_exists r)
    unfolding delete_day_two_cron_if_exists
    Keeps-delete_day_two = record { at = λ s h. ground arith }

    Keeps-clear : (machine : Machine) → Keeps Ordered (clear_machine_status r machine)
    unfolding clear_machine_status
    Keeps-clear machine = record { at = λ s h. ground arith }

    Keeps-keep_removing : Keeps Ordered (keep_removing r)
    unfolding keep_removing
    Keeps-keep_removing = search (keeps_rules, Keeps-update, Keeps-status_update) depth 7

    deleted :
        (s : St)
        → (delete_job_if_exists r job s).0 ≡ ok tt
        → HasDeleted (delete_job_if_exists r job s).1.history
    unfolding delete_job_if_exists
    deleted s e = ground arith

    finalize-Ordered :
        (s : St)
        → ((0 < job.status.succeeded) ⊎ (0 < job.status.failed))
        → HasDeleted s.history
        → Ordered s
        → Ordered (finalize r s).1
    unfolding finalize
    finalize-Ordered s ended gone h = ground arith

    -- The rest of a body after the deletion of the job.
    Keeps-deleted :
        {B : Type 0} (rest : Step B)
        → ((s : St) → HasDeleted s.history → Ordered s → Ordered (rest s).1)
        → Keeps Ordered (delete_job_if_exists r job >> rest)
    Keeps-deleted rest k = record {
      at = λ s h. elim (Result-cases (delete_job_if_exists r job s).0) [
        | inl (_, e) ↦
            rw (bind-ok (delete_job_if_exists r job) (λ _. rest) s e)
              (k _ (deleted s e) (Keeps-delete.at s h))
        | inr (x, e) ↦
            rw (bind-err (delete_job_if_exists r job) (λ _. rest) s e) (Keeps-delete.at s h)
      ];
    }

    Keeps-succeeded :
        (machine : Machine)
        → ltb 0 job.status.succeeded ≡ true
        → Keeps Ordered (decommission_succeeded r job machine)
    unfolding decommission_succeeded
    Keeps-succeeded machine e =
        Keeps-bind (clear_machine_status r machine) _ (Keeps-clear machine) (λ _.
          Keeps-deleted _ (λ s gone h. finalize-Ordered _ (inl (ground arith)) (inr gone) (tt, h)))

    Keeps-given_up :
        (machine : Machine)
        → ltb 0 job.status.failed ≡ true
        → Keeps Ordered (decommission_given_up r job machine)
    unfolding decommission_given_up
    Keeps-given_up machine e = Keeps-bind (emit true _ _) _ (Keeps-emit _ _ _) (λ _.
        Keeps-bind (clear_machine_status r machine) _ (Keeps-clear machine) (λ _.
          Keeps-deleted (finalize r) (λ s gone h. finalize-Ordered s (inr (ground arith)) gone h)))

    module _ (laws : RetryLaws r.retry_on_conflict) where
      Keeps-bump : Keeps Ordered (bump_on_remove_retries r)
      unfolding bump_on_remove_retries
      Keeps-bump =
          laws.only_runs Ordered (persist r with_on_remove_retry)
            (Keeps-persist with_on_remove_retry)

      Keeps-failed :
          (machine : Machine)
          → ltb 0 job.status.failed ≡ true
          → Keeps Ordered (decommission_failed r job machine)
      unfolding decommission_failed
      Keeps-failed machine e =
          search (keeps_rules, Keeps-bump, Keeps-delete, Keeps-given_up, Keeps-keep_removing) depth
            7

      Keeps-follow : (machine : Machine) → Keeps Ordered (follow_decommission r job machine)
      unfolding follow_decommission
      Keeps-follow machine =
          search (keeps_rules, Keeps-update, Keeps-succeeded, Keeps-failed, Keeps-keep_removing)
            depth 7

      -- The labels by which the decommission job of a configuration is found.
      abbrev pub decommission_labels : NixosConfiguration → Labels
      decommission_labels config =
          (label_config_name, config.name) ∷ (label_operation, operation_decommission) ∷ []

      remove_from-Ordered :
          (machine : Machine) (jobs : List NixJob) (s : St)
          → (s.config.spec.on_remove_flake == "") ≡ false
          → r.client.list_jobs s.history s.config.namespace (decommission_labels s.config)
            ≡ ok (job ∷ jobs)
          → Ordered s
          → Ordered (remove_from r machine s).1
      unfolding remove_from find_decommission_job
      remove_from-Ordered machine jobs s flake listed h =
          rw (flake, listed) ((Keeps-follow machine).at s h)

      config-delete_day_two : (s : St) → (delete_day_two_cron_if_exists r s).1.config ≡ s.config
      unfolding delete_day_two_cron_if_exists
      config-delete_day_two s = ground arith

      -- What the server answers throughout: the machine, and the decommission job.
      module _ (machine : Machine) (jobs : List NixJob) (s : St)
          (flake : (s.config.spec.on_remove_flake == "") ≡ false)
          (found : (h : History)
            → r.client.get_machine h s.config.namespace s.config.spec.machine_ref ≡ ok machine)
          (listed : (h : History)
            → r.client.list_jobs h s.config.namespace (decommission_labels s.config)
              ≡ ok (job ∷ jobs)) where
        release-Ordered : Ordered s → Ordered (release r s).1
        unfolding release
        release-Ordered h =
            let t = (delete_day_two_cron_if_exists r s).1 in
            rw (found t.history) (
              remove_from-Ordered machine jobs t (rw (config-delete_day_two s) flake)
                (rw (config-delete_day_two s) (listed t.history)) (Keeps-delete_day_two.at s h))

        removing-Ordered : Ordered s → Ordered (reconcile_removing r s).1
        unfolding reconcile_removing
        removing-Ordered h = ground (arith, release-Ordered h)

        found-Ordered : s.config.is_deleting ≡ true → Ordered s → Ordered (reconcile_found r s).1
        unfolding reconcile_found
        found-Ordered deleting h =
            subst (λ b. Ordered ((if b then reconcile_removing r else reconcile_present r) s).1)
              (sym deleting) (removing-Ordered h)

      -- A reconcile of an object that is being deleted, with a decommission flake, a machine that
      -- is there and a decommission job that the server lists first throughout, writes the object
      -- (without its finalizer) only after the job succeeded or failed and was deleted: while the
      -- job runs, the finalizer stays.
      pub reconcile-ReleasesAfter :
          (ns name : String) (config : NixosConfiguration) (machine : Machine) (jobs : List NixJob)
          → r.client.get_config [] ns name ≡ ok config
          → config.is_deleting ≡ true
          → (config.spec.on_remove_flake == "") ≡ false
          → ((h : History)
              → r.client.get_machine h config.namespace config.spec.machine_ref ≡ ok machine)
          → ((h : History)
              → r.client.list_jobs h config.namespace (decommission_labels config)
                ≡ ok (job ∷ jobs))
          → ReleasesAfter (reconcile r ns name).1
      unfolding reconcile
      reconcile-ReleasesAfter ns name config machine jobs stored deleting flake found listed =
          rw stored (
            found-Ordered machine jobs (record { config = config; history = [] }) flake found listed
              deleting tt)
