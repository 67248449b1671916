-- ===== src/Job.antt =====
-- The NixJob controller (internal/controller/nixjob_controller.go).
pub mod Run
pub mod History
pub mod Reconcile
pub mod Proofs
