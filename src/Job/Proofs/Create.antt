-- ===== src/Job/Proofs/Create.antt =====
-- About ensureRunJob: when a run-Job is created.
use nio.Prelude.{
  String, true, List, [], ◌∷◌, Option, ◌≡◌, ◌∙◌, ap, sym, subst, refl, ◌⊎◌, inl, inr, arith,
  Bool-cases,
}
use nio.Kube.{Error, is_not_found, Result, ok, err}
use nio.Kube.Binds.{Result-cases}
use nio.Api.Workload.{NixJob}
use nio.Api.Batch.{BatchJob}
use nio.Workload.State.{create_job, History, WorkloadReconciler, WorkSt}
use nio.Workload.Status.{trigger_on_change}
use nio.Workload.Resolve.{ResolvedSource}
use nio.Workload.Infra.{InfraDeps}
use nio.Job.Run.{
  desired_job, list_run_jobs, run_job_labels, create_run_job, run_once, ensure_missing,
  ensure_run_job,
}

module _ (r : WorkloadReconciler NixJob) (nj : NixJob) (res : ResolvedSource) (deps : InfraDeps)
    (job_name : String) where
  -- One call more, which creates the desired run-Job, owned by the NixJob.
  abbrev pub CreatesDesired : History NixJob → History NixJob → Type 0
  CreatesDesired before after =
      (job : BatchJob) × (answer : Option Error) × (r.services.own_job nj
          (desired_job r.services.sha256_hex nj res deps job_name)
        ≡ ok job)
      × (after ≡ record { call = create_job job; failure = answer } ∷ before)

  create_run_job-CreatesDesired :
      (s : WorkSt NixJob)
      → ((create_run_job r nj res deps job_name s).1.history ≡ s.history)
        ⊎ CreatesDesired s.history (create_run_job r nj res deps job_name s).1.history
  unfolding create_run_job
  create_run_job-CreatesDesired s = ground arith

  -- No run-Job of the revision is there, and a new revision triggers a run or none ran before.
  abbrev pub MayRun : History NixJob → Type 0
  MayRun h =
      (e : Error) × (r.services.get_job h nj.namespace job_name ≡ err e)
      × (is_not_found e ≡ true)
      × ((trigger_on_change nj.spec.nix true ≡ true)
          ⊎ (r.services.list_jobs h nj.namespace (run_job_labels nj.name) ≡ ok []))

  -- Nothing is written, or the desired run-Job is created where it may.
  abbrev pub CreatesWhere : WorkSt NixJob → WorkSt NixJob → Type 0
  CreatesWhere s t =
      (t.history ≡ s.history) ⊎ (MayRun s.history × CreatesDesired s.history t.history)

  create-CreatesWhere :
      (s : WorkSt NixJob)
      → MayRun s.history
      → CreatesWhere s (create_run_job r nj res deps job_name s).1
  create-CreatesWhere s may = elim (create_run_job-CreatesDesired s) [
    | inl same ↦ inl same
    | inr created ↦ inr (may, created)
  ]

  run_once-CreatesWhere :
      (jobs : List BatchJob) (s : WorkSt NixJob)
      → (jobs ≡ [] → MayRun s.history)
      → CreatesWhere s (run_once r nj res deps job_name jobs s).1
  unfolding run_once
  run_once-CreatesWhere [] s may = create-CreatesWhere s (may refl)
  run_once-CreatesWhere (job ∷ jobs) s may = inl refl

  with_outcome :
      (s : WorkSt NixJob) (y : Result (Unit {0}) × WorkSt NixJob)
      → ensure_run_job r nj res deps job_name s ≡ y
      → CreatesWhere s y.1
      → CreatesWhere s (ensure_run_job r nj res deps job_name s).1
  with_outcome s y e h =
      subst (λ (x : Result (Unit {0}) × WorkSt NixJob). CreatesWhere s x.1) (sym e) h

  -- ensureRunJob makes no call that writes, or exactly one: it creates the desired run-Job, and
  -- only when the server has no job of that name and either the workload is run on each change or
  -- no run-Job of it exists. A run-Job that exists is never changed.
  pub ensure_run_job-CreatesWhere :
      (s : WorkSt NixJob) → CreatesWhere s (ensure_run_job r nj res deps job_name s).1
  unfolding ensure_run_job ensure_missing list_run_jobs
  ensure_run_job-CreatesWhere s =
      elim (Result-cases (r.services.get_job s.history nj.namespace job_name)) [
        | inl (existing, e) ↦ rw e (inl refl)
        | inr (x, e) ↦ elim (Bool-cases (is_not_found x)) [
          | inr n ↦ rw (e, n) (inl refl)
          | inl n ↦ elim (Bool-cases (trigger_on_change nj.spec.nix true)) [
            | inl t ↦
                with_outcome s (create_run_job r nj res deps job_name s) (rw (e, n, t) refl)
                  (create-CreatesWhere s (x, e, n, inl t))
            | inr t ↦
                elim (Result-cases
                  (r.services.list_jobs s.history nj.namespace (run_job_labels nj.name))) [
                    | inl (jobs, l) ↦
                        with_outcome s (run_once r nj res deps job_name jobs s)
                          (rw (e, n, t, l) refl)
                          (run_once-CreatesWhere jobs s
                            (λ none_ran. (x, e, n, inr (l ∙ ap ok none_ran))))
                    | inr (y, l) ↦ rw (e, n, t, l) (inl refl)
                  ]
          ]
        ]
      ]
