-- ===== src/Configuration/Proofs/InstallSafety.antt =====
-- About reconcileInstall: the completion of the install is stored before the child is deleted,
-- since a later reconcile would install (and wipe) the machine again.
use nio.Prelude.{
  String, Bool, true, false, [], ◌∷◌, none, ◌≡◌, ◌⊎◌, inl, inr, ap, subst, ◌∙◌, arith, ltb,
}
use nio.Kube.{Message, Result, ok}
use nio.Kube.Actions.{◌>>◌}
use nio.Kube.Keeps.{Keeps, Keeps-after, keeps_rules}
use nio.Kube.Binds.{bind-ok, bind-err, Result-cases}
use nio.Api.Machine.{Machine}
use nio.Api.Workload.{NixJob}
use nio.Api.Configuration.{NixosConfiguration}
use nio.Client.{delete_job, update_config_status, Event, History}
use nio.Configuration.State.{St, Step, Reconciler, emit}
use nio.Configuration.Ensure.{
  ensure_install_nix_job, ensure_day_two_nix_cron_job, suspend_day_two_cron_if_exists,
  delete_job_if_exists,
}
use nio.Configuration.Install.{
  update_working_copy, persist, with_completed, mark_full_disk_install_completed,
  with_install_retry, install_reported, install_succeeded, install_recreated, install_given_up,
  install_retried, install_failed, follow_install, reconcile_install,
}

-- What the code relies on of `retry.RetryOnConflict`: it only runs its argument, any number of
-- times, and a nil error is that of its last run.
pub record RetryLaws (retry : Step (Unit {0}) → Step (Unit {0})) : Type 1 where
  pub last_run :
      (m : Step (Unit {0})) (s : St) → (retry m s).0 ≡ ok tt → (t : St) × (m t ≡ retry m s)
  pub only_runs : (P : St → Type 0) (m : Step (Unit {0})) → Keeps P m → Keeps P (retry m)

-- A status write that stored the completion of the install.
abbrev pub StoresCompletion : Event → Type 0
StoresCompletion e = elim e.call [
  | update_config_status c ↦ (c.status.full_disk_install_completed ≡ true) × (e.failure ≡ none)
  | _ ↦ ⊥
]

abbrev pub Completed : History → Type 0
Completed [] = ⊥
Completed (e ∷ h) = StoresCompletion e ⊎ Completed h

-- A deletion of a job that succeeded comes after a write of the completion.
abbrev pub DeletesAfter : Event → History → Type 0
DeletesAfter e h = elim e.call [
  | delete_job job ↦ (job.status.succeeded ≡ 0) ⊎ Completed h
  | _ ↦ Unit {0}
]

abbrev pub SafeHistory : History → Type 0
SafeHistory [] = Unit {0}
SafeHistory (e ∷ h) = DeletesAfter e h × SafeHistory h

abbrev pub Safe : St → Type 0
Safe s = SafeHistory s.history

module _ (r : Reconciler) where
  pub Keeps-update :
      (f : NixosConfiguration → NixosConfiguration) → Keeps Safe (update_working_copy f)
  Keeps-update f = record { at = λ s h. h }

  pub Keeps-emit : (w : Bool) (reason : String) (m : Message) → Keeps Safe (emit w reason m)
  Keeps-emit w reason m = record { at = λ s h. (tt, h) }

  Keeps-ensure_install : (machine : Machine) → Keeps Safe (ensure_install_nix_job r machine)
  unfolding ensure_install_nix_job
  Keeps-ensure_install machine = record { at = λ s h. ground arith }

  Keeps-persist : (f : NixosConfiguration → NixosConfiguration) → Keeps Safe (persist r f)
  Keeps-persist f = record { at = λ s h. ground arith }

  pub Keeps-ensure_day_two :
      (machine : Machine) (b : Bool) → Keeps Safe (ensure_day_two_nix_cron_job r machine b)
  unfolding ensure_day_two_nix_cron_job
  Keeps-ensure_day_two machine b = record { at = λ s h. ground arith }

  pub Keeps-suspend : Keeps Safe (suspend_day_two_cron_if_exists r)
  unfolding suspend_day_two_cron_if_exists
  Keeps-suspend = record { at = λ s h. ground arith }

  delete-Safe :
      (job : NixJob) (s : St)
      → Safe s
      → (job.status.succeeded ≡ 0) ⊎ Completed s.history
      → Safe (delete_job_if_exists r job s).1
  unfolding delete_job_if_exists
  delete-Safe job s h c = ground arith

  deleted-Safe :
      {B : Type 0} (job : NixJob) (rest : Step B) (s : St)
      → Keeps Safe rest
      → Safe s
      → (job.status.succeeded ≡ 0) ⊎ Completed s.history
      → Safe ((delete_job_if_exists r job >> rest) s).1
  deleted-Safe job rest s k h c =
      Keeps-after {P = Safe} (delete_job_if_exists r job) (λ _. rest) s (delete-Safe job s h c)
        (λ _. k)

  persist-Completed :
      (s : St)
      → (persist r with_completed s).0 ≡ ok tt
      → Completed (persist r with_completed s).1.history
  persist-Completed s e = ground arith

  module _ (laws : RetryLaws r.retry_on_conflict) where
    Keeps-mark : Keeps Safe (mark_full_disk_install_completed r)
    unfolding mark_full_disk_install_completed
    Keeps-mark = laws.only_runs Safe (persist r with_completed) (Keeps-persist with_completed)

    mark-Completed :
        (s : St)
        → (mark_full_disk_install_completed r s).0 ≡ ok tt
        → Completed (mark_full_disk_install_completed r s).1.history
    unfolding mark_full_disk_install_completed
    mark-Completed s e =
        let (t, last) = laws.last_run (persist r with_completed) s e in
        subst (λ (x : Result (Unit {0}) × St). Completed x.1.history) last
          (persist-Completed t (ap (λ (x : Result (Unit {0}) × St). x.0) last ∙ e))

    install_succeeded-Safe : (job : NixJob) → Keeps Safe (install_succeeded r job)
    unfolding install_succeeded
    install_succeeded-Safe job = record {
      at = λ s h. elim (Result-cases (mark_full_disk_install_completed r s).0) [
        | inl (_, e) ↦ rw (bind-ok (mark_full_disk_install_completed r) _ s e) (
            deleted-Safe job (install_reported r job) (mark_full_disk_install_completed r s).1
              (record { at = λ t k. (tt, k) }) (Keeps-mark.at s h) (inr (mark-Completed s e)))
        | inr (x, e) ↦ rw (bind-err (mark_full_disk_install_completed r) _ s e) (Keeps-mark.at s h)
      ];
    }

    install_given_up-Safe : Keeps Safe (install_given_up r)
    unfolding install_given_up
    install_given_up-Safe = record { at = λ s h. ground arith }

    install_retried-Safe :
        (job : NixJob) → ltb 0 job.status.succeeded ≡ false → Keeps Safe (install_retried r job)
    unfolding install_retried
    install_retried-Safe job failed = record {
      at = λ s h.
          deleted-Safe job (install_recreated r) (update_working_copy with_install_retry s).1
            (record { at = λ t k. k }) h (inl (ground arith));
    }

    install_failed-Safe :
        (job : NixJob) → ltb 0 job.status.succeeded ≡ false → Keeps Safe (install_failed r job)
    unfolding install_failed
    install_failed-Safe job failed =
        search (keeps_rules, Keeps-update, install_given_up-Safe, install_retried-Safe)

    follow_install-Safe : (job : NixJob) → Keeps Safe (follow_install r job)
    unfolding follow_install
    follow_install-Safe job =
        search (keeps_rules, Keeps-update, install_succeeded-Safe, install_failed-Safe)

    pub reconcile_install-Safe : (machine : Machine) → Keeps Safe (reconcile_install r machine)
    unfolding reconcile_install
    reconcile_install-Safe machine =
        search (keeps_rules, Keeps-ensure_install, Keeps-update, follow_install-Safe)
