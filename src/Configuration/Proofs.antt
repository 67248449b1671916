-- ===== src/Configuration/Proofs.antt =====
-- Theorems about the NixosConfiguration controller.
pub mod Conditions
pub mod Waking
pub mod Decommission
pub mod Ownership
pub mod Gates
pub mod InstallSafety
pub mod LiveSafety
pub mod Removal
pub mod Retries
pub mod DayTwo
