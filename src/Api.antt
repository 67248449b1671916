-- ===== src/Api.antt =====
-- The API types (api/v1alpha1): one module for each file of types that the controllers read.
pub mod Core
pub mod Workload
pub mod Rollout
pub mod Machine
pub mod Configuration
pub mod Names
pub mod ConfigPhase
pub mod Cluster
pub mod Builder
pub mod Batch
