-- ===== src/Rollout/Proofs.antt =====
-- About the NixDeployment and NixStatefulSet controllers.
pub mod Deployments
pub mod StatefulSets
