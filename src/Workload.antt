-- ===== src/Workload.antt =====
-- What the controllers of the workloads share (internal/controller/nixworkload.go, nixresolve.go).
pub mod State
pub mod Status
pub mod Resolve
pub mod LsRemote
pub mod Infra
pub mod Pods
pub mod Flow
pub mod Watch
pub mod Proofs
