-- ===== src/Job/Proofs.antt =====
-- Proofs about the NixJob controller.
pub mod Create
pub mod History
pub mod Verdict
