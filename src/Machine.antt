-- ===== src/Machine.antt =====
-- The Machine controller (internal/controller/machine_controller.go).
pub mod State
pub mod Credentials
pub mod Scan
pub mod Reconcile
pub mod Watch
pub mod Proofs
