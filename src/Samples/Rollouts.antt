-- ===== src/Samples/Rollouts.antt =====
-- The theorems on the rollouts, at a sample NixDeployment.
use nio.Prelude.{false, [], none, ◌≡◌, refl}
use nio.Kube.{ok}
use nio.Kube.Conditions.{slice_meta}
use nio.Api.Workload.{zero_workload}
use nio.Api.Rollout.{NixDeployment, Deployment, zero_deployment_spec, new_deployment}
use nio.Workload.State.{WorkloadReconciler, WorkSt}
use nio.Workload.Status.{observe_pods, mark_ready, clear_stalled}
use nio.Workload.Pods.{observe_pod_init}
use nio.Workload.Resolve.{ResolvedSource}
use nio.Rollout.Deployments
use nio.Rollout.Deployments.{nix_deployment_kind}
use nio.Samples.Operator.{spec, services}

abbrev resolved : ResolvedSource
resolved = record { revision = "4f1a2b3c"; artifact_url = "" }

abbrev web : NixDeployment
web = record {
  name = "web";
  namespace = "default";
  generation = 2;
  is_deleting = false;
  finalizers = [];
  spec = record { nix = spec; deployment_template = none };
  status = record {
    workload = zero_workload;
    ready_replicas = 0;
    updated_replicas = 0;
    available_replicas = 0;
  };
}

abbrev rolled_out : Deployment
rolled_out = record (new_deployment "web" "default" [] zero_deployment_spec) {
  generation = 3;
  observed_generation = 3;
  updated_replicas = 1;
  available_replicas = 1;
  ready_replicas = 1;
}

abbrev web_operator : WorkloadReconciler NixDeployment
web_operator = record {
  services = record (services web "Ready" []) { get_deployment = λ h ns name. ok rolled_out };
  meta = slice_meta;
  kind = nix_deployment_kind;
}

abbrev web_start : WorkSt NixDeployment
web_start = record { object = web; history = [] }

-- The only replica is ready: the revision counts as rolled out.
advanced :
    (Deployments.observe web_operator resolved web_start).1.object.status.workload.phase ≡ "Ready"
unfolding Deployments.observe observe_pod_init Deployments.with_verdict observe_pods
    Deployments.replica_failure Deployments.is_rolled_out mark_ready clear_stalled
advanced = refl
