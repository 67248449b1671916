-- ===== src/Infra/Proofs.antt =====
-- About the stores and the builders.
pub mod Writes
pub mod StoreWrites
pub mod BuilderWrites
pub mod SafeWrites
pub mod Reports
pub mod Endpoints
pub mod Keys
pub mod Mounts
pub mod WorkerMounts
pub mod CanStart
