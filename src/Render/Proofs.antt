-- ===== src/Render/Proofs.antt =====
-- Proofs about the rendering of pods.
pub mod Shell
pub mod Revision
pub mod Inits
pub mod Pod
