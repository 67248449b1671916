-- ===== src/Workload/Proofs.antt =====
-- Proofs about what the workload controllers share.
pub mod Stall
pub mod Quiet
pub mod Infra
pub mod Wait
