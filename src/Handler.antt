-- ===== src/Handler.antt =====
-- pkg/server/handler: what the API server does for clusters and instances, and its routes.
pub mod Client
pub mod Services
pub mod Images
pub mod Convert
pub mod Generate
pub mod Evict
pub mod Metadata
pub mod Instances
pub mod Clusters
pub mod Runs
pub mod ClustersV2
pub mod Routes
