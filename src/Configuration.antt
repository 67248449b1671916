-- ===== src/Configuration.antt =====
-- The NixosConfiguration controller (internal/controller/nixosconfiguration_controller.go): its
-- state and calls, its parts, and the proofs about them.
pub mod State
pub mod Phase
pub mod Owner
pub mod Ensure
pub mod Install
pub mod DayTwo
pub mod Removing
pub mod Reconcile
pub mod Watch
pub mod Proofs
