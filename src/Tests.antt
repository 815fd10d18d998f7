-- ===== src/Tests.antt =====
-- Runs of the models on concrete inputs.
pub mod Data
pub mod Ledgers
pub mod Stores
pub mod Trainers
pub mod Samplers
pub mod Meshes
pub mod Coordinators
pub mod Jobs
pub mod Endpoints
pub mod Examples
pub mod Rpcs
pub mod Loops
pub mod Rollouts
pub mod Servers
