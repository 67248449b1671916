-- ===== src/Workload/Proofs/Stall.antt =====
-- About a workload whose infrastructure is not ready, and what its parent reads of it.
use nio.Prelude.{ℕ, true, ◌∷◌, Option, none, some, ◌≡◌, refl, inl, inr}
use nio.Kube.{Error, Message, Result, ok, err, Requeue, requeue_in}
use nio.Kube.Conditions.{Condition, condition_true}
use nio.Kube.Binds.{Result-cases}
use nio.Api.Workload.{NixCronJob, NixSpec, NixWorkloadStatus}
use nio.Api.Names.{condition_stalled, reason_infra_not_ready}
use nio.Converge.{converge_stall}
use nio.Workload.State.{update_object_status, WorkloadReconciler, WorkSt, WorkStep}
use nio.Workload.Status.{mark_stalled, infra_requeue}
use nio.Workload.Resolve.{ResolvedSource}
use nio.Workload.Infra.{InfraDeps}
use nio.Workload.Flow.{with_infra}
use nio.CronJob.Project.{nix_cron_job_kind}

-- The condition that says of a store or a builder that it is not ready.
abbrev pub stalled_condition : Message → ℕ → Condition
stalled_condition message generation = record {
  type = condition_stalled;
  status = condition_true;
  observed_generation = generation;
  reason = reason_infra_not_ready;
  message = message;
}

-- The answer after a status update that may have failed.
abbrev pub waiting : Option Error → Result Requeue
waiting none = ok (requeue_in infra_requeue)
waiting (some e) = err e

module _ (reconciler : WorkloadReconciler NixCronJob) where
  -- The reconciler of NixCronJobs.
  abbrev pub of_cron_jobs : WorkloadReconciler NixCronJob
  of_cron_jobs = record reconciler { kind = nix_cron_job_kind }

  -- One call more, which writes a child that differs in its status only, and of which its parent
  -- reads the stall.
  abbrev pub Stalls : Message → WorkSt NixCronJob → Result Requeue × WorkSt NixCronJob → Type 0
  Stalls message before after =
      (st : NixWorkloadStatus) × (child : NixCronJob) × (failure : Option Error) × (child
        ≡ record before.object { status = record before.object.status { workload = st } })
      × (after.1.history
          ≡ record { call = update_object_status child; failure = failure } ∷ before.history)
      × (converge_stall reconciler.meta child true
          ≡ some (stalled_condition message before.object.generation))
      × (after.0 ≡ waiting failure)

  stalled_lem :
      (message : Message) (generation : ℕ) (cron : NixCronJob)
      → converge_stall reconciler.meta
          (record cron {
            status = record cron.status {
              workload =
                  mark_stalled reconciler.meta reason_infra_not_ready message generation
                    cron.status.workload;
            };
          })
          true
        ≡ some (stalled_condition message generation)
  unfolding converge_stall mark_stalled
  stalled_lem message generation cron = simp (reconciler.meta.find-set) refl

  -- A NixCronJob whose infrastructure was found not ready, for a reason with a message: its
  -- reconcile runs nothing, but makes one call more, which writes the child with another status and
  -- nothing else changed; and from the child so written a NixosConfiguration or a NixCluster reads
  -- the stall InfraNotReady with that message. The next reconcile is after the interval, or the
  -- error of the write is returned.
  pub with_infra-Stalls :
      (run : ResolvedSource → InfraDeps → WorkStep NixCronJob (Unit {0})) (nix : NixSpec)
      (res : ResolvedSource) (deps : InfraDeps) (message : Message) (s : WorkSt NixCronJob)
      → deps.not_ready ≡ some message
      → Stalls message s (with_infra of_cron_jobs run nix res deps s)
  unfolding with_infra
  with_infra-Stalls run nix res deps message s waits =
      let st =
        mark_stalled reconciler.meta reason_infra_not_ready message s.object.generation
          s.object.status.workload in
      let child = record s.object { status = record s.object.status { workload = st } } in
      let stall = stalled_lem message s.object.generation s.object in
      rw waits (elim (Result-cases (reconciler.services.update_object_status s.history child)) [
        | inl (stored, e) ↦ rw e (st, child, none, refl, refl, stall, refl)
        | inr (x, e) ↦ rw e (st, child, some x, refl, refl, stall, refl)
      ])
