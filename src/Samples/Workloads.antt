-- ===== src/Samples/Workloads.antt =====
-- The theorems on the shared flow of the workloads, at the sample operator.
use nio.Prelude.{true, [], refl}
use nio.Kube.{text}
use nio.Kube.Actions.{pure}
use nio.Kube.Ensures.{Holds}
use nio.Api.Workload.{NixCronJob, new_nix_cron_job, zero_job_spec}
use nio.Workload.Infra.{InfraDeps, no_deps, not_ready_deps, resolve_infra}
use nio.Workload.Flow.{with_infra, reconcile_workload}
use nio.Workload.Proofs.Stall.{of_cron_jobs, Stalls, with_infra-Stalls}
use nio.Workload.Proofs.Quiet.{IsQuiet}
use nio.Workload.Proofs.Infra.{IsReadyFor, wanted_builder, resolve_infra-IsReadyFor}
use nio.Workload.Proofs.Wait.{reconcile_workload-IsQuiet}
use nio.Job.Reconcile.{run_job}
use nio.Samples.Operator.{spec, hello, cache, operator, start, cron_operator}

abbrev child : NixCronJob
child = new_nix_cron_job "prod-converge" "default" (record {
  nix = spec;
  cron_job_template = record {
    schedule = "0 * * * *";
    forbid_concurrent = true;
    job_template = zero_job_spec;
  };
})

abbrev waiting_deps : InfraDeps
waiting_deps = not_ready_deps (text "NixStore \"cache\" not ready") no_deps

with_infra-Stalls_example :
    Stalls cron_operator
      (text "NixStore \"cache\" not ready")
      (record { object = child; history = [] })
      (with_infra
        (of_cron_jobs cron_operator)
        (λ res deps. pure tt)
        spec
        (record { revision = "abc"; artifact_url = "" })
        waiting_deps
        (record { object = child; history = [] }))
with_infra-Stalls_example =
    with_infra-Stalls cron_operator (λ res deps. pure tt) spec
      (record { revision = "abc"; artifact_url = "" }) waiting_deps
      (text "NixStore \"cache\" not ready") (record { object = child; history = [] }) refl

resolve_infra-IsReadyFor_example :
    IsQuiet (resolve_infra (operator "Ready" []) hello spec start).1.history
    × Holds
        (IsReadyFor
          (operator "Ready" [])
          "default"
          spec
          (wanted_builder (operator "Ready" []) hello spec))
        (resolve_infra (operator "Ready" []) hello spec start).0
resolve_infra-IsReadyFor_example =
    resolve_infra-IsReadyFor (operator "Ready" []) hello spec start tt

reconcile_workload-IsQuiet_example :
    IsQuiet
      (reconcile_workload
        (operator "Progressing" [])
        (run_job (operator "Progressing" []))
        start).1.history
reconcile_workload-IsQuiet_example =
    reconcile_workload-IsQuiet (operator "Progressing" []) (run_job (operator "Progressing" []))
      start "cache" (cache "Progressing") refl (λ h. refl) refl tt
