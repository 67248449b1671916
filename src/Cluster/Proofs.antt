-- ===== src/Cluster/Proofs.antt =====
-- Theorems about the NixCluster controller.
pub mod Filling
pub mod Selection
pub mod Phases
pub mod Claims
pub mod Preflight
pub mod Removal
pub mod Conditions
pub mod NodeFile
pub mod NodePath
