-- ===== src/OpenApi.antt =====
-- pkg/openapi: the types of the API that the handlers read and write.
use uni_compute.Base.{ℕ, String, Bool, Option, List}
use uni_compute.Base.Int.{ℤ}
use uni_compute.External.Core.{
  Tag, ResourceMetadata, ResourceProvisioningStatus, ResourceHealthStatus,
}
use uni_compute.External.Region.{InstanceLifecyclePhase}
use uni_compute.Api.{OsDistro}

pub data RuleDirection : Type 0 where
  ingress egress : RuleDirection

pub data RuleProtocol : Type 0 where
  tcp udp : RuleProtocol

pub record Rule : Type 0 where
  pub direction : RuleDirection
  pub port : ℕ
  pub port_max : Option ℕ
  pub prefixes : List String
  pub protocol : RuleProtocol

pub record AddressPair : Type 0 where
  pub cidr : String
  pub mac_address : Option String

-- An image is asked for by its ID or by a selector.
pub record ImageSelector : Type 0 where
  pub distro : OsDistro
  pub variant : Option String
  pub version : String

pub record ComputeImage : Type 0 where
  pub id : Option String
  pub selector : Option ImageSelector

-- `PublicIPAllocation` holds one field, `Enabled`. `Disk` is read by no handler.
pub record MachinePool : Type 0 where
  pub allowed_address_pairs : Option (List AddressPair)
  pub firewall : Option (List Rule)
  pub flavor_id : String
  pub image : ComputeImage
  pub public_ip_allocation : Option Bool
  pub replicas : ℤ
  pub user_data : Option (List ℕ)

pub record WorkloadPool : Type 0 where
  pub name : String
  pub machine : MachinePool

pub record ComputeClusterMachineStatus : Type 0 where
  pub id : String
  pub hostname : String
  pub flavor_id : String
  pub image_id : String
  pub private_ip : Option String
  pub public_ip : Option String
  pub status : InstanceLifecyclePhase
  pub provisioning_status : ResourceProvisioningStatus
  pub health_status : ResourceHealthStatus

pub record ComputeClusterWorkloadPoolStatus : Type 0 where
  pub name : String
  pub replicas : ℕ
  pub machines : List ComputeClusterMachineStatus

pub record InstanceNetworking : Type 0 where
  pub allowed_source_addresses : Option (List String)
  pub public_ip : Option Bool
  pub security_groups : Option (List String)

-- `ComputeClusterWrite`, with its specification in it.
pub record ComputeClusterWrite : Type 0 where
  pub metadata : ResourceMetadata
  pub region_id : String
  pub workload_pools : List WorkloadPool

pub record ComputeClusterStatusRead : Type 0 where
  pub ssh_private_key : Option String
  pub workload_pools : List ComputeClusterWorkloadPoolStatus

-- `ComputeClusterRead`. What is read of the metadata of a resource stands as its name and tags, and
-- here the project.
pub record ComputeClusterRead : Type 0 where
  pub name : String
  pub project_id : String
  pub tags : List Tag
  pub region_id : String
  pub workload_pools : List WorkloadPool
  pub status : ComputeClusterStatusRead

pub record InstanceSpec : Type 0 where
  pub flavor_id : String
  pub image_id : String
  pub networking : Option InstanceNetworking
  pub user_data : Option (List ℕ)

pub record InstanceCreateSpec : Type 0 where
  pub organization_id : String
  pub project_id : String
  pub network_id : String
  pub flavor_id : String
  pub image_id : String
  pub networking : Option InstanceNetworking
  pub user_data : Option (List ℕ)

pub record InstanceCreate : Type 0 where
  pub metadata : ResourceMetadata
  pub spec : InstanceCreateSpec

pub record InstanceUpdate : Type 0 where
  pub metadata : ResourceMetadata
  pub spec : InstanceSpec

pub record InstanceStatus : Type 0 where
  pub network_id : String
  pub region_id : String
  pub power_state : Option InstanceLifecyclePhase
  pub private_ip : Option String
  pub public_ip : Option String

pub record InstanceRead : Type 0 where
  pub name : String
  pub tags : List Tag
  pub spec : InstanceSpec
  pub status : InstanceStatus

-- The query of a listing.
pub record ListParams : Type 0 where
  pub organization_id : Option (List String)
  pub project_id : Option (List String)
  pub region_id : Option (List String)
  pub network_id : Option (List String)
  pub tag : Option (List String)

pub record PoolV2 : Type 0 where
  pub name : String
  pub replicas : ℤ
  pub flavor_id : String
  pub image_id : String
  pub networking : Option InstanceNetworking
  pub user_data : Option (List ℕ)

pub record PoolV2Status : Type 0 where
  pub name : String
  pub replicas : ℤ

pub record ClusterV2Create : Type 0 where
  pub metadata : ResourceMetadata
  pub organization_id : String
  pub project_id : String
  pub network_id : String
  pub pools : List PoolV2

pub record ClusterV2Update : Type 0 where
  pub metadata : ResourceMetadata
  pub pools : List PoolV2

pub record ClusterV2Status : Type 0 where
  pub network_id : String
  pub region_id : String
  pub pools : List PoolV2Status

pub record ClusterV2Read : Type 0 where
  pub name : String
  pub tags : List Tag
  pub pools : List PoolV2
  pub status : ClusterV2Status
