-- ===== src/Samples.antt =====
-- Concrete objects, an API server that answers from them, and runs of the model on them.
pub mod Server
mod Runs
mod Lab
mod Clusters
mod Crons
mod Machines
pub mod Operator
mod Workloads
mod Backends
mod Git
mod Jobs
mod Renders
mod Rollouts
