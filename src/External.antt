-- ===== src/External.antt =====
-- What the program takes from other repositories: the types of the core and region services that
-- cross their interfaces, with the fields that this program reads or writes.
pub mod Core
pub mod Region
pub mod Env
pub mod RegionV2
pub mod Catalog
pub mod Handlers
