-- ===== src/Converge.antt =====
-- convergeStall (internal/controller/nixcluster_controller.go), which the NixosConfiguration and
-- the NixCluster controllers share.
use nio.Prelude.{Bool, true, false, Option, none, some, ◌==◌, if◌then◌else◌}
use nio.Kube.Conditions.{
  Condition, ConditionStatus, condition_true, condition_false, condition_unknown, Meta,
}
use nio.Api.Workload.{NixCronJob}
use nio.Api.Names.{condition_stalled, reason_infra_not_ready}

abbrev pub is_true : ConditionStatus → Bool
is_true condition_true = true
is_true condition_false = false
is_true condition_unknown = false

-- The condition, if it says that store or builder are not ready.
abbrev pub infra_stall : Option Condition → Option Condition
infra_stall none = none
infra_stall (some cond) =
    if is_true cond.status
    then (if cond.reason == reason_infra_not_ready then some cond else none)
    else none

unfoldable pub converge_stall : Meta → NixCronJob → Bool → Option Condition
converge_stall m cron have_cron =
    if have_cron
    then infra_stall (m.find_status_condition cron.status.workload.conditions condition_stalled)
    else none
