-- ===== src/Render.antt =====
-- Pod rendering (internal/controller/nixrender.go).
pub mod Paths
pub mod Shell
pub mod Commands
pub mod Revision
pub mod Config
pub mod Mounts
pub mod Inject
pub mod Fetch
pub mod Pod
pub mod Template
pub mod Proofs
