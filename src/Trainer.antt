-- ===== src/Trainer.antt =====
-- cmd/trainer: from the objects of the cluster to the list of jobs.
pub mod Status
pub mod Owners
pub mod Jobs
pub mod Services
pub mod Workload
pub mod Search
pub mod Named
pub mod Amounts
pub mod Listing
pub mod Mpi
