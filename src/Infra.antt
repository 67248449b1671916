-- ===== src/Infra.antt =====
-- internal/controller/nixstore_controller.go, nixbuilder_controller.go and nix_sshkey.go: the
-- StatefulSets, Services and keys behind a NixStore and a NixBuilder, and the status that the
-- workloads read.
pub mod State
pub mod Keys
pub mod Pods
pub mod Scripts
pub mod Server
pub mod Store
pub mod Worker
pub mod Builder
pub mod Proofs
