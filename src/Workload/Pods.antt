-- ===== src/Workload/Pods.antt =====
-- observePodInit: the init containers of the pods of a revision.
use nio.Prelude.{String, false, [], ◌∷◌}
use nio.Kube.Actions.{◌>>=◌, pure, lift}
use nio.Api.Names.{label_workload_kind, label_workload_name, label_revision}
use nio.Workload.State.{WorkloadReconciler, WorkStep}
use nio.Workload.Status.{PodInitState, observe_pods}

unfoldable pub observe_pod_init :
    {A : Type 0}
    → WorkloadReconciler A
    → String
    → String
    → String
    → String
    → WorkStep A PodInitState
observe_pod_init r ns kind name revision s =
    (do
      pods ← lift (
          r.services.list_pods s.history ns (
            (label_workload_kind, kind)
            ∷ (label_workload_name, name)
            ∷ (label_revision, revision)
            ∷ []))
      pure (observe_pods (record { building = false; failing = false }) pods))
      s
