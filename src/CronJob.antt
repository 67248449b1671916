-- ===== src/CronJob.antt =====
-- internal/controller/nixcronjob_controller.go: the NixCronJob controller.
pub mod Runs
pub mod Project
pub mod Reconcile
pub mod Proofs
