-- ===== src/Kube.antt =====
-- What the controllers take from Kubernetes: errors and results of calls, texts that are formatted,
-- the requeue answer of a reconciler, status conditions (Kube/Conditions.antt) and times
-- (Kube/Times.antt).
mod Messages
pub mod Conditions
pub mod Times
pub mod Actions
pub mod Keeps
pub mod Binds
pub mod Ensures
pub use Messages.*
