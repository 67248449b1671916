-- ===== src/Machine/Proofs.antt =====
-- Proofs about the Machine controller.
pub mod Credentials
pub mod Scan
pub mod Verdict
pub mod Watch
