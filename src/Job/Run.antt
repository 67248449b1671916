-- ===== src/Job/Run.antt =====
-- desiredJob, ensureRunJob, jobHasCondition and observe of the NixJob controller.
use nio.Prelude.{
  String, Bool, true, false, not, ◌&&◌, ◌||◌, List, [], ◌∷◌, none, some, is_some, ◌==◌, refl,
  if◌then◌else◌,
}
use nio.Kube.{is_not_found, is_already_exists, text, Result, ok, err}
use nio.Kube.Conditions.{condition_true, condition_false}
use nio.Kube.Actions.{◌>>=◌, pure, fail, attempt, lift, get}
use nio.Api.Core.{PodTemplate, Labels}
use nio.Api.Workload.{NixJob, JobSpec, zero_job_spec}
use nio.Api.Batch.{JobCondition, BatchJob, new_batch_job}
use nio.Api.Names.{
  managed_labels, label_workload_kind, label_workload_name, condition_ready, condition_stalled,
  phase_failed, phase_progressing, reason_failed,
}
use nio.Render.Pod.{RenderInput}
use nio.Render.Template.{render_pod_template}
use nio.Workload.State.{Kind, WorkloadReconciler, WorkStep, new_job}
use nio.Workload.Status.{set_condition, mark_ready, mark_progressing, trigger_on_change}
use nio.Workload.Resolve.{ResolvedSource}
use nio.Workload.Infra.{InfraDeps}
use nio.Workload.Flow.{change}

abbrev pub kind_nix_job : String
kind_nix_job = "NixJob"

-- What the shared flow reads and writes of a NixJob.
abbrev pub nix_job_kind : Kind NixJob
nix_job_kind = record {
  name = λ j. j.name;
  namespace = λ j. j.namespace;
  generation = λ j. j.generation;
  is_deleting = λ j. j.is_deleting;
  finalizers = λ j. j.finalizers;
  set_finalizers = λ fs j. record j { finalizers = fs };
  nix = λ j. j.spec.nix;
  workload = λ j. j.status.workload;
  set_workload = λ st j. record j { status = record j.status { workload = st } };
  namespace-set_workload = λ st j. refl;
  nix-set_workload = λ st j. refl;
}

-- ensureBatchRestartPolicy
abbrev pub ensure_batch_restart_policy : PodTemplate → PodTemplate
ensure_batch_restart_policy tmpl =
    if tmpl.restart_policy == "" then record tmpl { restart_policy = "Never" } else tmpl

-- jobHasCondition: a condition of the type whose status is True
unfoldable pub has_condition : List JobCondition → String → Bool
has_condition [] cond_type = false
has_condition (c ∷ cs) cond_type = (c.type == cond_type && c.is_true) || has_condition cs cond_type

abbrev pub job_complete : String
job_complete = "Complete"

abbrev pub job_failed : String
job_failed = "Failed"

abbrev render_input : NixJob → ResolvedSource → InfraDeps → RenderInput
render_input nj res deps = record {
  spec = nj.spec.nix;
  resolved_revision = res.revision;
  artifact_url = res.artifact_url;
  store = deps.store;
  builder = deps.builder;
  ssh_secret_name = deps.ssh_secret_name;
  kind = kind_nix_job;
  name = nj.name;
}

abbrev template_of : NixJob → JobSpec
template_of nj = elim nj.spec.job_template [ none ↦ zero_job_spec | some spec ↦ spec ]

unfoldable pub desired_job :
    (String → String) → NixJob → ResolvedSource → InfraDeps → String → BatchJob
desired_job sha256_hex nj res deps job_name =
    let spec = template_of nj in
    new_batch_job job_name nj.namespace (managed_labels kind_nix_job nj.name) (record spec {
      template =
          ensure_batch_restart_policy
            (render_pod_template sha256_hex (render_input nj res deps) spec.template);
    })

abbrev pub run_job_labels : String → Labels
run_job_labels name = (label_workload_kind, kind_nix_job) ∷ (label_workload_name, name) ∷ []

module _ (r : WorkloadReconciler NixJob) where
  abbrev pub get_job : String → String → WorkStep NixJob BatchJob
  get_job namespace name s = (r.services.get_job s.history namespace name, s)

  -- listRunJobs
  unfoldable pub list_run_jobs : NixJob → WorkStep NixJob (List BatchJob)
  list_run_jobs nj s = (r.services.list_jobs s.history nj.namespace (run_job_labels nj.name), s)

  abbrev created : Result (Unit {0}) → WorkStep NixJob (Unit {0})
  created (ok _) = pure tt
  created (err e) = if is_already_exists e then pure tt else fail e

  unfoldable pub create_run_job :
      NixJob → ResolvedSource → InfraDeps → String → WorkStep NixJob (Unit {0})
  create_run_job nj res deps job_name = do
    job ← lift (r.services.own_job nj (desired_job r.services.sha256_hex nj res deps job_name))
    answer ← attempt (new_job r job)
    created answer

  -- With triggerOnChange=false a run-Job that is there is enough.
  unfoldable pub run_once :
      NixJob → ResolvedSource → InfraDeps → String → List BatchJob → WorkStep NixJob (Unit {0})
  run_once nj res deps job_name [] = create_run_job nj res deps job_name
  run_once nj res deps job_name (job ∷ jobs) = pure tt

  unfoldable pub ensure_missing :
      NixJob → ResolvedSource → InfraDeps → String → Result BatchJob → WorkStep NixJob (Unit {0})
  ensure_missing nj res deps job_name (ok existing) = pure tt
  ensure_missing nj res deps job_name (err e) =
      if not (is_not_found e)
      then fail e
      else if not (trigger_on_change nj.spec.nix true)
      then (do owned ← list_run_jobs nj; run_once nj res deps job_name owned)
      else create_run_job nj res deps job_name

  unfoldable pub ensure_run_job :
      NixJob → ResolvedSource → InfraDeps → String → WorkStep NixJob (Unit {0})
  ensure_run_job nj res deps job_name = do
    existing ← attempt (get_job nj.namespace job_name)
    ensure_missing nj res deps job_name existing

  abbrev with_counts : String → BatchJob → NixJob → NixJob
  with_counts job_name job nj = record nj {
    status = record nj.status {
      active_job = job_name;
      succeeded = job.succeeded;
      failed = job.failed;
      last_run_time = if is_some job.start_time then job.start_time else nj.status.last_run_time;
    };
  }

  abbrev run_failed : NixJob → NixJob
  run_failed nj =
      nix_job_kind.set_workload
        (set_condition r.meta condition_stalled condition_true reason_failed
          (text "run-Job exhausted its backoffLimit") nj.generation
          (set_condition r.meta condition_ready condition_false reason_failed
            (text "run-Job failed") nj.generation
            (record nj.status.workload { phase = phase_failed })))
        nj

  -- The phase, by the conditions of the run-Job.
  unfoldable pub with_verdict : BatchJob → NixJob → NixJob
  with_verdict job nj =
      if has_condition job.conditions job_complete
      then nix_job_kind.set_workload
          (mark_ready r.meta nj.status.workload.resolved_revision nj.generation nj.status.workload)
          nj
      else if has_condition job.conditions job_failed
      then run_failed nj
      else nix_job_kind.set_workload
          (mark_progressing r.meta phase_progressing (text "run-Job in progress") nj.generation
            nj.status.workload)
          nj

  abbrev observed_job : String → Result BatchJob → WorkStep NixJob (Unit {0})
  observed_job job_name (ok job) = change (λ nj. with_verdict job (with_counts job_name job nj))
  observed_job job_name (err e) =
      if is_not_found e
      then change (λ nj.
        nix_job_kind.set_workload
          (mark_progressing r.meta phase_progressing (text "run-Job not created") nj.generation
            nj.status.workload)
          nj)
      else fail e

  unfoldable pub observe : String → WorkStep NixJob (Unit {0})
  observe job_name = do
    s ← get
    answer ← attempt (get_job s.object.namespace job_name)
    observed_job job_name answer
