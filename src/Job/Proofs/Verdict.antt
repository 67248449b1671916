-- ===== src/Job/Proofs/Verdict.antt =====
-- About observe: the conditions of a NixJob, by its run-Job.
use nio.Prelude.{String, true, false, ◌≡◌, refl, if◌then◌else◌, Bool-cases, inl, inr, none, Option}
use nio.Kube.Conditions.{Condition, holds}
use nio.Api.Workload.{NixJob}
use nio.Api.Batch.{BatchJob}
use nio.Api.Names.{
  condition_ready, condition_stalled, condition_progressing, phase_ready, phase_failed,
  phase_progressing,
}
use nio.Workload.State.{WorkloadReconciler}
use nio.Workload.Status.{mark_ready, mark_progressing, clear_stalled}
use nio.Job.Run.{has_condition, job_complete, job_failed, with_verdict}

module _ (r : WorkloadReconciler NixJob) where
  abbrev pub found : NixJob → String → Option Condition
  found nj = r.meta.find_status_condition nj.status.workload.conditions

  -- A run that succeeded.
  abbrev pub IsReady : NixJob → NixJob → Type 0
  IsReady before after =
      (after.status.workload.phase ≡ phase_ready)
      × (after.status.workload.rolled_out_revision ≡ before.status.workload.resolved_revision)
      × (holds (found after condition_ready) ≡ true)
      × (holds (found after condition_progressing) ≡ false)
      × (found after condition_stalled ≡ none)

  -- A run that failed for good.
  abbrev pub IsFailed : NixJob → Type 0
  IsFailed after =
      (after.status.workload.phase ≡ phase_failed)
      × (holds (found after condition_ready) ≡ false)
      × (holds (found after condition_stalled) ≡ true)

  -- A run that goes on: what was said of a stall stays.
  abbrev pub IsRunning : NixJob → NixJob → Type 0
  IsRunning before after =
      (after.status.workload.phase ≡ phase_progressing)
      × (holds (found after condition_ready) ≡ false)
      × (holds (found after condition_progressing) ≡ true)
      × (found after condition_stalled ≡ found before condition_stalled)

  -- What the conditions of the run-Job say becomes the verdict: Complete is Ready, at the resolved
  -- revision, and ends a stall; Failed is the phase Failed, not Ready and Stalled; and a run that
  -- goes on is Progressing and not Ready, but leaves the Stalled condition of an earlier reconcile
  -- as it was.
  pub with_verdict-conditions :
      (job : BatchJob) (nj : NixJob)
      → (if has_condition job.conditions job_complete
          then IsReady nj (with_verdict r job nj)
          else if has_condition job.conditions job_failed
          then IsFailed (with_verdict r job nj)
          else IsRunning nj (with_verdict r job nj))
  unfolding with_verdict mark_ready mark_progressing clear_stalled
  with_verdict-conditions job nj = elim (Bool-cases (has_condition job.conditions job_complete)) [
    | inl c ↦ rw c (simp (r.meta.find-set, r.meta.find-remove) (refl, refl, refl, refl, refl))
    | inr c ↦ elim (Bool-cases (has_condition job.conditions job_failed)) [
      | inl f ↦ rw (c, f) (simp (r.meta.find-set) (refl, refl, refl))
      | inr f ↦ rw (c, f) (simp (r.meta.find-set) (refl, refl, refl, refl))
    ]
  ]
