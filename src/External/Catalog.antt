-- ===== src/External/Catalog.antt =====
-- Flavors, images and regions of the region service, quota allocations of the identity service, and
-- the world around the handler of clusters.
use uni_compute.Base.{ℕ, String, Bool, Option, List}
use uni_compute.Base.Int.{ℤ}
use uni_compute.Base.Result.{Result}
use uni_compute.External.Env.{Reply}
use uni_compute.External.Core.{Tag, ResourceMetadata}
use uni_compute.External.Region.{ServerRead}
use uni_compute.External.RegionV2.{ServersParams}
use uni_compute.Api.{ComputeCluster, ComputeInstance, OsDistro}

-- `Gpu` with its one field that is read, `PhysicalCount`.
pub record Flavor : Type 0 where
  pub id : String
  pub gpu : Option ℕ
  pub baremetal : Option Bool
  pub architecture : String
  pub disk : ℕ

pub data ImageVirtualization : Type 0 where
  any baremetal virtualized : ImageVirtualization

pub data ImageState : Type 0 where
  pending creating ready failed : ImageState

-- `Spec.Os` stands in the record itself.
pub record Image : Type 0 where
  pub id : String
  pub distro : OsDistro
  pub variant : Option String
  pub version : String
  pub software_versions : Option (List String)
  pub state : ImageState
  pub architecture : String
  pub size : ℕ
  pub virtualization : ImageVirtualization

pub data RegionType : Type 0 where
  kubernetes openstack : RegionType

pub record RegionRead : Type 0 where
  pub id : String
  pub type : RegionType

-- `ResourceAllocation`, where `Reserved` is always 0.
pub record Allocation : Type 0 where
  pub kind : String
  pub committed : ℤ

pub data ServerAction : Type 0 where
  hard_reboot soft_reboot start stop : ServerAction

-- The user on whose behalf a request is handled.
pub record Principal : Type 0 where
  pub organization_id : String
  pub project_id : String

-- A requirement of a label selector: the label has one of the values, or is not there.
pub data Requirement : Type 0 where
  among : String → List String → Requirement
  absent : String → Requirement

abbrev pub Selector : Type 0
Selector = List Requirement

-- The bodies with which an identity and a network are created.
pub record IdentityWrite : Type 0 where
  pub name : String
  pub description : String
  pub tags : List Tag
  pub region_id : String

pub record NetworkWrite : Type 0 where
  pub name : String
  pub description : String
  pub tags : List Tag
  pub prefix : String
  pub dns_nameservers : List String

pub data HandlerRequest : Type 0 where
  get_cluster : String → HandlerRequest
  list_regions : String → HandlerRequest
  list_flavors list_images : String → String → HandlerRequest
  list_servers : String → List String → HandlerRequest
  update_allocations : ComputeCluster → List Allocation → HandlerRequest
  patch_cluster : ComputeCluster → HandlerRequest
  delete_cluster : String → HandlerRequest
  -- Organization, project, identity and server.
  act_on_server : ServerAction → String → String → String → String → HandlerRequest
  delete_server : String → String → String → String → HandlerRequest
  get_console_session : String → String → String → String → HandlerRequest
  get_console_output : String → String → String → String → Option ℕ → HandlerRequest
  -- Creation of a cluster.
  list_clusters : Selector → HandlerRequest
  create_identity : String → String → IdentityWrite → HandlerRequest
  create_network : String → String → String → NetworkWrite → HandlerRequest
  create_allocations : ComputeCluster → List Allocation → HandlerRequest
  create_cluster : ComputeCluster → HandlerRequest
  -- The principal of the request's context is changed.
  set_principal : Principal → HandlerRequest
  -- Instances.
  get_instance : String → HandlerRequest
  list_instances : Selector → HandlerRequest
  get_network get_security_group : String → HandlerRequest
  list_servers_v2 : ServersParams → HandlerRequest
  act_on_server_v2 : ServerAction → String → HandlerRequest
  get_ssh_key get_session_v2 : String → HandlerRequest
  get_output_v2 : String → Option ℕ → HandlerRequest
  create_snapshot : String → ResourceMetadata → HandlerRequest
  allocate reallocate : ComputeInstance → List Allocation → HandlerRequest
  release : ComputeInstance → HandlerRequest
  create_instance patch_instance : ComputeInstance → HandlerRequest
  delete_instance : String → HandlerRequest

-- The requests that were sent, the newest first.
abbrev pub HandlerHistory : Type 0
HandlerHistory = List HandlerRequest

-- What the Kubernetes API answers to a read.
pub data Lookup (A : Type 0) : Type 0 where
  found : A → Lookup A
  missing : Lookup A
  broken : ℕ → Lookup A

pub record HandlerEnv : Type 0 where
  pub identity_annotation : String
  pub allocation_annotation : String
  pub network_label : String
  pub compute_cluster_label : String
  pub cluster : HandlerHistory → Lookup ComputeCluster
  -- `AssertProjectOwnership`, of an organization and a project.
  pub owned : String → String → ComputeCluster → Result (Unit {0})
  pub regions : HandlerHistory → Reply (List RegionRead)
  pub flavors : HandlerHistory → Reply (List Flavor)
  pub images : HandlerHistory → Reply (List Image)
  pub servers : HandlerHistory → Reply (List ServerRead)
  pub action : HandlerHistory → Reply (Unit {0})
  -- Writes: the Kubernetes API, and the allocations of the identity service.
  pub write : HandlerHistory → Option ℕ
  -- `IsNotFound` of the error of a write.
  pub is_missing : ℕ → Bool
