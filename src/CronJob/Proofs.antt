-- ===== src/CronJob/Proofs.antt =====
-- About the NixCronJob controller.
pub mod Runs
pub mod Fire
pub mod Verdict
