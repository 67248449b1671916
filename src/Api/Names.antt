-- ===== src/Api/Names.antt =====
-- The names of conditions, reasons and phases (api/v1alpha1/conditions.go and the phase constants
-- of the types).
use nio.Prelude.{String, [], ◌∷◌}
use nio.Api.Core.{Labels}

-- Condition types.
abbrev pub condition_ready : String
condition_ready = "Ready"

abbrev pub condition_reconciling : String
condition_reconciling = "Reconciling"

abbrev pub condition_stalled : String
condition_stalled = "Stalled"

abbrev pub condition_discoverable : String
condition_discoverable = "Discoverable"

abbrev pub condition_applied : String
condition_applied = "Applied"

abbrev pub condition_git_synced : String
condition_git_synced = "GitSynced"

abbrev pub condition_underprovisioned : String
condition_underprovisioned = "Underprovisioned"

abbrev pub condition_progressing : String
condition_progressing = "Progressing"

-- Reasons.
abbrev pub reason_underprovisioned : String
reason_underprovisioned = "Underprovisioned"

abbrev pub reason_fully_provisioned : String
reason_fully_provisioned = "FullyProvisioned"

abbrev pub reason_succeeded : String
reason_succeeded = "Succeeded"

abbrev pub reason_failed : String
reason_failed = "Failed"

abbrev pub reason_progressing : String
reason_progressing = "Progressing"

abbrev pub reason_waiting : String
reason_waiting = "Waiting"

abbrev pub reason_ssh_connected : String
reason_ssh_connected = "SSHConnected"

abbrev pub reason_ssh_failed : String
reason_ssh_failed = "SSHFailed"

abbrev pub reason_credentials_missing : String
reason_credentials_missing = "CredentialsMissing"

abbrev pub reason_config_applied : String
reason_config_applied = "ConfigurationApplied"

abbrev pub reason_apply_failed : String
reason_apply_failed = "ApplyFailed"

abbrev pub reason_machine_not_ready : String
reason_machine_not_ready = "MachineNotReady"

abbrev pub reason_machine_in_use : String
reason_machine_in_use = "MachineInUse"

abbrev pub reason_installing : String
reason_installing = "Installing"

abbrev pub reason_converging : String
reason_converging = "Converging"

-- The reasons that internal/controller/nixworkload.go adds.
abbrev pub reason_infra_not_ready : String
reason_infra_not_ready = "InfraNotReady"

abbrev pub finalizer_name : String
finalizer_name = "nio.homystack.com/finalizer"

-- Workload phases.
abbrev pub phase_ready : String
phase_ready = "Ready"

abbrev pub phase_pending : String
phase_pending = "Pending"

abbrev pub phase_degraded : String
phase_degraded = "Degraded"

abbrev pub phase_failed : String
phase_failed = "Failed"

abbrev pub phase_suspended : String
phase_suspended = "Suspended"

abbrev pub phase_progressing : String
phase_progressing = "Progressing"

abbrev pub phase_building : String
phase_building = "Building"

-- NixCluster phases, and the statuses of members (api/v1alpha1/nixcluster_types.go).
abbrev pub cluster_ready : String
cluster_ready = "Ready"

abbrev pub cluster_converging : String
cluster_converging = "Converging"

abbrev pub cluster_degraded : String
cluster_degraded = "Degraded"

abbrev pub cluster_blocked : String
cluster_blocked = "Blocked"

abbrev pub member_pending : String
member_pending = "Pending"

abbrev pub member_applying : String
member_applying = "Applying"

abbrev pub member_applied : String
member_applied = "Applied"

abbrev pub member_failed : String
member_failed = "Failed"

abbrev pub reason_selection_complete : String
reason_selection_complete = "SelectionComplete"

abbrev pub reason_invalid_node_file : String
reason_invalid_node_file = "InvalidNodeFile"

abbrev pub reason_builder_system_mismatch : String
reason_builder_system_mismatch = "BuilderSystemMismatch"

-- Labels.
abbrev pub label_workload_kind : String
label_workload_kind = "nio.homystack.com/workload-kind"

abbrev pub label_workload_name : String
label_workload_name = "nio.homystack.com/workload-name"

abbrev pub label_managed_by : String
label_managed_by = "app.kubernetes.io/managed-by"

abbrev pub managed_by_value : String
managed_by_value = "nio"

abbrev pub label_revision : String
label_revision = "nio.homystack.com/revision"

-- The annotation that carries the revision on a pod template.
abbrev pub annotation_revision : String
annotation_revision = "nio.homystack.com/revision"

unfoldable pub managed_labels : String → String → Labels
managed_labels kind name =
    (label_workload_kind, kind)
    ∷ (label_workload_name, name)
    ∷ (label_managed_by, managed_by_value)
    ∷ []
