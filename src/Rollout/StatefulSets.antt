-- ===== src/Rollout/StatefulSets.antt =====
-- The NixStatefulSet controller (internal/controller/nixstatefulset_controller.go).
use nio.Prelude.{String, Bool, ◌&&◌, eqb, ltb, leb, refl, if◌then◌else◌}
use nio.Kube.{is_not_found, text, Result, ok, err, Requeue}
use nio.Kube.Actions.{◌>>=◌, ◌>>◌, fail, attempt, lift, get}
use nio.Api.Rollout.{NixStatefulSet, StatefulSet, new_stateful_set}
use nio.Api.Names.{managed_labels, phase_building, phase_progressing}
use nio.Render.Pod.{RenderInput}
use nio.Render.Revision.{composite_revision}
use nio.Render.Template.{render_pod_template}
use nio.Workload.State
use nio.Workload.State.{History, Kind, WorkloadReconciler, WorkStep, write_stateful_set}
use nio.Workload.Status.{mark_stalled, mark_ready, mark_progressing, PodInitState}
use nio.Workload.Resolve.{ResolvedSource}
use nio.Workload.Infra.{InfraDeps}
use nio.Workload.Pods.{observe_pod_init}
use nio.Workload.Flow
use nio.Workload.Flow.{change, update_status}
use nio.Rollout.Deployments.{selector_or, desired_replicas, reason_init_failing}

abbrev pub kind_nix_stateful_set : String
kind_nix_stateful_set = "NixStatefulSet"

-- What the shared flow reads and writes of a NixStatefulSet.
abbrev pub nix_stateful_set_kind : Kind NixStatefulSet
nix_stateful_set_kind = record {
  name = λ d. d.name;
  namespace = λ d. d.namespace;
  generation = λ d. d.generation;
  is_deleting = λ d. d.is_deleting;
  finalizers = λ d. d.finalizers;
  set_finalizers = λ fs d. record d { finalizers = fs };
  nix = λ d. d.spec.nix;
  workload = λ d. d.status.workload;
  set_workload = λ st d. record d { status = record d.status { workload = st } };
  namespace-set_workload = λ st d. refl;
  nix-set_workload = λ st d. refl;
}

abbrev render_input : NixStatefulSet → ResolvedSource → InfraDeps → RenderInput
render_input nss res deps = record {
  spec = nss.spec.nix;
  resolved_revision = res.revision;
  artifact_url = res.artifact_url;
  store = deps.store;
  builder = deps.builder;
  ssh_secret_name = deps.ssh_secret_name;
  kind = kind_nix_stateful_set;
  name = nss.name;
}

unfoldable pub desired_stateful_set :
    (String → String) → NixStatefulSet → ResolvedSource → InfraDeps → StatefulSet
desired_stateful_set sha256_hex nss res deps =
    let spec = nss.spec.stateful_set_template in
    new_stateful_set nss.name nss.namespace (managed_labels kind_nix_stateful_set nss.name)
      (record spec {
        template = render_pod_template sha256_hex (render_input nss res deps) spec.template;
        selector = selector_or spec.selector kind_nix_stateful_set nss.name;
      })

unfoldable pub is_rolled_out : StatefulSet → Bool
is_rolled_out sts =
    let desired = desired_replicas sts.spec.replicas in
    leb sts.generation sts.observed_generation
    && eqb sts.updated_replicas desired
    && eqb sts.ready_replicas desired
    && ltb 0 desired

abbrev pub with_counts : StatefulSet → NixStatefulSet → NixStatefulSet
with_counts sts nss = record nss {
  status = record nss.status {
    ready_replicas = sts.ready_replicas;
    updated_replicas = sts.updated_replicas;
    current_revision = sts.current_revision;
    update_revision = sts.update_revision;
  };
}

module _ (r : WorkloadReconciler NixStatefulSet) where
  abbrev pub get_stateful_set : String → String → WorkStep NixStatefulSet StatefulSet
  get_stateful_set namespace name s = (r.services.get_stateful_set s.history namespace name, s)

  abbrev pub projected : StatefulSet → Result StatefulSet → WorkStep NixStatefulSet (Unit {0})
  projected desired (ok existing) = write_stateful_set r (record existing {
    spec = record existing.spec {
      replicas = desired.spec.replicas;
      template = desired.spec.template;
      update_strategy = desired.spec.update_strategy;
    };
  })
  projected desired (err e) = if is_not_found e then State.new_stateful_set r desired else fail e

  unfoldable pub project :
      NixStatefulSet → ResolvedSource → InfraDeps → WorkStep NixStatefulSet (Unit {0})
  project nss res deps = do
    desired ←
        lift (
          r.services.own_stateful_set nss (desired_stateful_set r.services.sha256_hex nss res deps))
    existing ← attempt (get_stateful_set nss.namespace nss.name)
    projected desired existing

  abbrev pub progressing : PodInitState → NixStatefulSet → NixStatefulSet
  progressing init nss =
      nix_stateful_set_kind.set_workload
        (if init.building
          then mark_progressing r.meta phase_building
              (text "new-revision pods are building in init") nss.generation nss.status.workload
          else mark_progressing r.meta phase_progressing (text "statefulset rollout in progress")
              nss.generation nss.status.workload)
        nss

  -- The phase, by the init containers of the new pods and the StatefulSet.
  unfoldable pub with_verdict :
      ResolvedSource → StatefulSet → PodInitState → NixStatefulSet → NixStatefulSet
  with_verdict res sts init nss =
      if init.failing
      then nix_stateful_set_kind.set_workload
          (mark_stalled r.meta reason_init_failing
            (text "new-revision pods are failing their instantiate init build") nss.generation
            nss.status.workload)
          nss
      else if is_rolled_out sts
      then nix_stateful_set_kind.set_workload
          (mark_ready r.meta res.revision nss.generation nss.status.workload) nss
      else progressing init nss

  unfoldable pub observe : ResolvedSource → WorkStep NixStatefulSet (Unit {0})
  observe res = do
    s ← get
    let nss = s.object
    sts ← get_stateful_set nss.namespace nss.name
    change (with_counts sts)
    init ←
        observe_pod_init r nss.namespace kind_nix_stateful_set nss.name
          (composite_revision r.services.sha256_hex res.revision nss.spec.nix.run nss.spec.nix.args)
    change (with_verdict res sts init)

  -- What follows the infrastructure.
  unfoldable pub run_stateful_set : ResolvedSource → InfraDeps → WorkStep NixStatefulSet (Unit {0})
  run_stateful_set res deps = do
    s ← get
    project s.object res deps
    update_status r (λ _ st. record st { workload_ref = s.object.name })
    observe res

  unfoldable pub reconcile : String → String → Result Requeue × History NixStatefulSet
  reconcile namespace name = Flow.reconcile r run_stateful_set namespace name
