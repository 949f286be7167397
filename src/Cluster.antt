-- ===== src/Cluster.antt =====
-- pkg/provisioners/managers/cluster: the controller of version 1 clusters.
pub mod State
pub mod Client
pub mod Tags
pub mod ServerSet
pub mod Reconcile
pub mod SecurityGroups
pub mod Provision
