-- ===== src/CronJob/Project.antt =====
-- desiredCronJob, project and fireImmediateJob of the NixCronJob controller.
use Prim.Native.String.{◌++◌}
use nio.Prelude.{
  ℕ, String, Bool, true, false, not, ◌&&◌, List, [], ◌∷◌, some, is_some, refl, if◌then◌else◌,
}
use nio.Kube.{is_not_found, Result, ok, err}
use nio.Kube.Actions.{◌>>=◌, pure, fail, attempt, lift}
use nio.Api.Workload.{NixCronJob, JobSpec}
use nio.Api.Batch.{BatchJob, BatchCronJob, new_batch_job, new_batch_cron_job}
use nio.Api.Names.{managed_labels}
use nio.Render.Pod.{RenderInput}
use nio.Render.Revision.{composite_revision}
use nio.Render.Template.{render_pod_template}
use nio.Workload.State.{Kind, WorkloadReconciler, WorkStep, new_job, new_cron_job, write_cron_job}
use nio.Workload.Resolve.{ResolvedSource}
use nio.Workload.Infra.{InfraDeps, created}
use nio.Job.Run.{ensure_batch_restart_policy}

abbrev pub kind_nix_cron_job : String
kind_nix_cron_job = "NixCronJob"

-- immediateJobTTLSeconds
abbrev pub immediate_job_ttl_seconds : ℕ
immediate_job_ttl_seconds = 86_400

-- What the shared flow reads and writes of a NixCronJob.
abbrev pub nix_cron_job_kind : Kind NixCronJob
nix_cron_job_kind = record {
  name = λ j. j.name;
  namespace = λ j. j.namespace;
  generation = λ j. j.generation;
  is_deleting = λ j. j.is_deleting;
  finalizers = λ j. j.finalizers;
  set_finalizers = λ fs j. record j { finalizers = fs };
  nix = λ j. j.spec.nix;
  workload = λ j. j.status.workload;
  set_workload = λ st j. record j { status = record j.status { workload = st } };
  namespace-set_workload = λ st j. refl;
  nix-set_workload = λ st j. refl;
}

abbrev render_input : NixCronJob → ResolvedSource → InfraDeps → RenderInput
render_input ncj res deps = record {
  spec = ncj.spec.nix;
  resolved_revision = res.revision;
  artifact_url = res.artifact_url;
  store = deps.store;
  builder = deps.builder;
  ssh_secret_name = deps.ssh_secret_name;
  kind = kind_nix_cron_job;
  name = ncj.name;
}

-- The spec of the jobs, with the rendered pod.
abbrev pinned : (String → String) → RenderInput → JobSpec → JobSpec
pinned sha256_hex i spec = record spec {
  template = ensure_batch_restart_policy (render_pod_template sha256_hex i spec.template);
}

unfoldable pub desired_cron_job :
    (String → String) → NixCronJob → ResolvedSource → InfraDeps → BatchCronJob
desired_cron_job sha256_hex ncj res deps =
    let spec = ncj.spec.cron_job_template in
    new_batch_cron_job ncj.name ncj.namespace (managed_labels kind_nix_cron_job ncj.name)
      (record spec {
        job_template = pinned sha256_hex (render_input ncj res deps) spec.job_template;
      })

abbrev with_ttl : JobSpec → JobSpec
with_ttl spec =
    if not (is_some spec.ttl_seconds_after_finished)
    then record spec { ttl_seconds_after_finished = some immediate_job_ttl_seconds }
    else spec

abbrev pub immediate_job_name : (String → String) → NixCronJob → ResolvedSource → String
immediate_job_name sha256_hex ncj res =
    ncj.name
    ++ "-"
    ++ composite_revision sha256_hex res.revision ncj.spec.nix.run ncj.spec.nix.args
    ++ "-manual"

-- The one-off Job.
unfoldable pub immediate_job :
    (String → String) → NixCronJob → ResolvedSource → InfraDeps → BatchJob
immediate_job sha256_hex ncj res deps =
    new_batch_job (immediate_job_name sha256_hex ncj res) ncj.namespace
      (managed_labels kind_nix_cron_job ncj.name)
      (with_ttl (desired_cron_job sha256_hex ncj res deps).spec.job_template)

abbrev pub has_active : List String → Bool
has_active [] = false
has_active (name ∷ names) = true

-- A run is active, and no other may run beside it.
unfoldable pub is_forbidden : NixCronJob → Bool
is_forbidden ncj = ncj.spec.cron_job_template.forbid_concurrent && has_active ncj.status.active_jobs

module _ (r : WorkloadReconciler NixCronJob) where
  abbrev pub get_cron_job : String → String → WorkStep NixCronJob BatchCronJob
  get_cron_job namespace name s = (r.services.get_cron_job s.history namespace name, s)

  abbrev pub get_job : String → String → WorkStep NixCronJob BatchJob
  get_job namespace name s = (r.services.get_job s.history namespace name, s)

  abbrev pub projected : BatchCronJob → Result BatchCronJob → WorkStep NixCronJob (Unit {0})
  projected desired (ok existing) = write_cron_job r (record existing { spec = desired.spec })
  projected desired (err e) = if is_not_found e then new_cron_job r desired else fail e

  unfoldable pub project : NixCronJob → ResolvedSource → InfraDeps → WorkStep NixCronJob (Unit {0})
  project ncj res deps = do
    desired ←
        lift (r.services.own_cron_job ncj (desired_cron_job r.services.sha256_hex ncj res deps))
    existing ← attempt (get_cron_job ncj.namespace ncj.name)
    projected desired existing

  abbrev pub fire_missing :
      NixCronJob → ResolvedSource → InfraDeps → Result BatchJob → WorkStep NixCronJob (Unit {0})
  fire_missing ncj res deps (ok existing) = pure tt
  fire_missing ncj res deps (err e) = if not (is_not_found e) then fail e else (do
    job ← lift (r.services.own_job ncj (immediate_job r.services.sha256_hex ncj res deps))
    answer ← attempt (new_job r job)
    created r answer)

  unfoldable pub fire_immediate_job :
      NixCronJob → ResolvedSource → InfraDeps → WorkStep NixCronJob (Unit {0})
  fire_immediate_job ncj res deps = if is_forbidden ncj then pure tt else (do
    existing ← attempt (get_job ncj.namespace (immediate_job_name r.services.sha256_hex ncj res))
    fire_missing ncj res deps existing)
