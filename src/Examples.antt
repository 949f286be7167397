-- ===== src/Examples.antt =====
-- Concrete clusters and instances, and what the theorems say of them.
pub mod Data
mod Servers
mod Runs
mod Provisions
mod Instances
mod Handlers
mod Evictions
mod World
mod Api
mod Convergence
