-- ===== src/Rollout/Deployments.antt =====
-- The NixDeployment controller (internal/controller/nixdeployment_controller.go).
use nio.Prelude.{
  ℕ, String, Bool, not, ◌&&◌, List, [], ◌∷◌, Option, none, some, is_some, ◌==◌, eqb, ltb, leb, refl,
  if◌then◌else◌,
}
use nio.Kube.{is_not_found, Message, text, Result, ok, err, Requeue}
use nio.Kube.Actions.{◌>>=◌, ◌>>◌, fail, attempt, lift, get}
use nio.Api.Rollout.{
  NixDeployment, Deployment, DeploymentSpec, DeploymentStrategy, DeploymentCondition, from_int,
  from_string, zero_deployment_spec, new_deployment,
}
use nio.Api.Cluster.{LabelSelector}
use nio.Api.Names.{managed_labels, phase_building, phase_progressing}
use nio.Render.Pod.{RenderInput}
use nio.Render.Revision.{composite_revision}
use nio.Render.Template.{render_pod_template}
use nio.Workload.State
use nio.Workload.State.{History, Kind, WorkloadReconciler, WorkStep, write_deployment}
use nio.Workload.Status.{mark_stalled, mark_ready, mark_progressing, PodInitState}
use nio.Workload.Resolve.{ResolvedSource}
use nio.Workload.Infra.{InfraDeps}
use nio.Workload.Pods.{observe_pod_init}
use nio.Workload.Flow
use nio.Workload.Flow.{change, update_status}

abbrev pub kind_nix_deployment : String
kind_nix_deployment = "NixDeployment"

abbrev pub reason_init_failing : String
reason_init_failing = "InitBuildFailing"

abbrev pub reason_replica_failure : String
reason_replica_failure = "ReplicaFailure"

-- What the shared flow reads and writes of a NixDeployment.
abbrev pub nix_deployment_kind : Kind NixDeployment
nix_deployment_kind = record {
  name = λ d. d.name;
  namespace = λ d. d.namespace;
  generation = λ d. d.generation;
  is_deleting = λ d. d.is_deleting;
  finalizers = λ d. d.finalizers;
  set_finalizers = λ fs d. record d { finalizers = fs };
  nix = λ d. d.spec.nix;
  workload = λ d. d.status.workload;
  set_workload = λ st d. record d { status = record d.status { workload = st } };
  namespace-set_workload = λ st d. refl;
  nix-set_workload = λ st d. refl;
}

abbrev render_input : NixDeployment → ResolvedSource → InfraDeps → RenderInput
render_input nd res deps = record {
  spec = nd.spec.nix;
  resolved_revision = res.revision;
  artifact_url = res.artifact_url;
  store = deps.store;
  builder = deps.builder;
  ssh_secret_name = deps.ssh_secret_name;
  kind = kind_nix_deployment;
  name = nd.name;
}

abbrev template_of : NixDeployment → DeploymentSpec
template_of nd = elim nd.spec.deployment_template [ none ↦ zero_deployment_spec | some spec ↦ spec ]

-- The selector, where the user left it out.
abbrev pub selector_or : Option LabelSelector → String → String → Option LabelSelector
selector_or none kind name =
    some (record { match_labels = managed_labels kind name; match_expressions = [] })
selector_or (some selector) kind name = some selector

-- The surge-only strategy, where the user chose none.
unfoldable pub strategy_or : DeploymentStrategy → DeploymentStrategy
strategy_or strategy =
    if strategy.type == "" && not (is_some strategy.rolling_update)
    then record {
      type = "RollingUpdate";
      rolling_update =
          some
            (record { max_unavailable = some (from_int 0); max_surge = some (from_string "25%") });
    }
    else strategy

unfoldable pub desired_deployment :
    (String → String) → NixDeployment → ResolvedSource → InfraDeps → Deployment
desired_deployment sha256_hex nd res deps =
    let spec = template_of nd in
    new_deployment nd.name nd.namespace (managed_labels kind_nix_deployment nd.name) (record spec {
      template = render_pod_template sha256_hex (render_input nd res deps) spec.template;
      selector = selector_or spec.selector kind_nix_deployment nd.name;
      strategy = strategy_or spec.strategy;
    })

-- The message of the first ReplicaFailure that is True.
unfoldable pub replica_failure : List DeploymentCondition → Option Message
replica_failure [] = none
replica_failure (c ∷ cs) =
    if c.type == "ReplicaFailure" && c.is_true then some c.message else replica_failure cs

abbrev pub desired_replicas : Option ℕ → ℕ
desired_replicas none = 1
desired_replicas (some n) = n

unfoldable pub is_rolled_out : Deployment → Bool
is_rolled_out dep =
    let desired = desired_replicas dep.spec.replicas in
    leb dep.generation dep.observed_generation
    && eqb dep.updated_replicas desired
    && eqb dep.available_replicas desired
    && eqb dep.ready_replicas desired
    && ltb 0 desired

abbrev pub with_counts : Deployment → NixDeployment → NixDeployment
with_counts dep nd = record nd {
  status = record nd.status {
    ready_replicas = dep.ready_replicas;
    updated_replicas = dep.updated_replicas;
    available_replicas = dep.available_replicas;
  };
}

module _ (r : WorkloadReconciler NixDeployment) where
  abbrev pub get_deployment : String → String → WorkStep NixDeployment Deployment
  get_deployment namespace name s = (r.services.get_deployment s.history namespace name, s)

  abbrev pub projected : Deployment → Result Deployment → WorkStep NixDeployment (Unit {0})
  projected desired (ok existing) = write_deployment r (record existing {
    spec = record existing.spec {
      replicas = desired.spec.replicas;
      template = desired.spec.template;
      strategy = desired.spec.strategy;
    };
  })
  projected desired (err e) = if is_not_found e then State.new_deployment r desired else fail e

  unfoldable pub project :
      NixDeployment → ResolvedSource → InfraDeps → WorkStep NixDeployment (Unit {0})
  project nd res deps = do
    desired ←
        lift (r.services.own_deployment nd (desired_deployment r.services.sha256_hex nd res deps))
    existing ← attempt (get_deployment nd.namespace nd.name)
    projected desired existing

  abbrev pub progressing : PodInitState → NixDeployment → NixDeployment
  progressing init nd =
      nix_deployment_kind.set_workload
        (if init.building
          then mark_progressing r.meta phase_building
              (text "new-revision pods are building in init") nd.generation nd.status.workload
          else mark_progressing r.meta phase_progressing (text "deployment rollout in progress")
              nd.generation nd.status.workload)
        nd

  abbrev pub without_failure :
      ResolvedSource → Deployment → PodInitState → Option Message → NixDeployment → NixDeployment
  without_failure res dep init (some message) nd =
      nix_deployment_kind.set_workload
        (mark_stalled r.meta reason_replica_failure message nd.generation nd.status.workload) nd
  without_failure res dep init none nd =
      if is_rolled_out dep
      then nix_deployment_kind.set_workload
          (mark_ready r.meta res.revision nd.generation nd.status.workload) nd
      else progressing init nd

  -- The phase, by the init containers of the new pods and the Deployment.
  unfoldable pub with_verdict :
      ResolvedSource → Deployment → PodInitState → NixDeployment → NixDeployment
  with_verdict res dep init nd =
      if init.failing
      then nix_deployment_kind.set_workload
          (mark_stalled r.meta reason_init_failing
            (text "new-revision pods are failing their instantiate init build") nd.generation
            nd.status.workload)
          nd
      else without_failure res dep init (replica_failure dep.conditions) nd

  unfoldable pub observe : ResolvedSource → WorkStep NixDeployment (Unit {0})
  observe res = do
    s ← get
    let nd = s.object
    dep ← get_deployment nd.namespace nd.name
    change (with_counts dep)
    init ←
        observe_pod_init r nd.namespace kind_nix_deployment nd.name
          (composite_revision r.services.sha256_hex res.revision nd.spec.nix.run nd.spec.nix.args)
    change (with_verdict res dep init)

  -- What follows the infrastructure.
  unfoldable pub run_deployment : ResolvedSource → InfraDeps → WorkStep NixDeployment (Unit {0})
  run_deployment res deps = do
    s ← get
    project s.object res deps
    update_status r (λ _ st. record st { workload_ref = s.object.name })
    observe res

  unfoldable pub reconcile : String → String → Result Requeue × History NixDeployment
  reconcile namespace name = Flow.reconcile r run_deployment namespace name
