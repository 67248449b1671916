-- ===== src/Cluster.antt =====
-- internal/controller/nixcluster_controller.go: the NixCluster controller.
pub mod Select
pub mod Status
pub mod State
pub mod Converge
pub mod NodeFile
pub mod Systems
pub mod Conditions
pub mod Groups
pub mod Reconcile
pub mod Watch
pub mod Proofs
