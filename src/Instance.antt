-- ===== src/Instance.antt =====
-- pkg/provisioners/managers/instance: the controller of instances, each backed by one server.
pub mod Generate
pub mod Client
pub mod Provision
pub mod Outcomes
pub mod Networking
