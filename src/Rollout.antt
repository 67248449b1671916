-- ===== src/Rollout.antt =====
-- internal/controller/nixdeployment_controller.go and nixstatefulset_controller.go.
pub mod Deployments
pub mod StatefulSets
pub mod Proofs
