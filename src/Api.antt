-- ===== src/Api.antt =====
-- pkg/apis/unikorn/v1alpha1: the custom resources and their accessors.
pub mod Accessors
use uni_compute.Base.{ℕ, String, Bool, Option, List}
use uni_compute.Base.Int.{ℤ}
use uni_compute.Base.Dict.{Dict}
use uni_compute.External.Core.{Tag, Condition, IPv4Prefix}
use uni_compute.External.Region.{InstanceLifecyclePhase}

pub data FirewallRuleDirection : Type 0 where
  ingress egress : FirewallRuleDirection

pub data FirewallRuleProtocol : Type 0 where
  tcp udp : FirewallRuleProtocol

pub data OsDistro : Type 0 where
  rocky ubuntu : OsDistro

pub record FirewallRule : Type 0 where
  pub direction : FirewallRuleDirection
  pub protocol : FirewallRuleProtocol
  pub prefixes : List IPv4Prefix
  pub port : ℕ
  pub port_max : Option ℕ

pub record ComputeWorkloadPoolAddressPair : Type 0 where
  pub cidr : IPv4Prefix
  pub mac_address : String

pub record ComputeWorkloadPoolImageSelector : Type 0 where
  pub distro : OsDistro
  pub variant : Option String
  pub version : String

-- `PublicIPAllocationSpec` holds one field, `Enabled`.
pub record ComputeClusterWorkloadPoolSpec : Type 0 where
  pub name : String
  pub replicas : ℤ
  pub image_id : String
  pub flavor_id : String
  pub public_ip_allocation : Option Bool
  pub firewall : List FirewallRule
  pub user_data : Option (List ℕ)
  pub image_selector : Option ComputeWorkloadPoolImageSelector
  pub allowed_address_pairs : List ComputeWorkloadPoolAddressPair

pub record ComputeInstanceNetworking : Type 0 where
  pub public_ip : Bool
  pub security_group_ids : List String
  pub allowed_source_addresses : List IPv4Prefix

pub record ComputeInstanceSpec : Type 0 where
  pub flavor_id : String
  pub image_id : String
  pub pause : Bool
  pub tags : List Tag
  pub networking : Option ComputeInstanceNetworking
  pub user_data : List ℕ

pub record ComputeInstanceStatus : Type 0 where
  pub private_ip : Option String
  pub public_ip : Option String
  pub power_state : Option InstanceLifecyclePhase
  pub conditions : List Condition

pub record ComputeInstance : Type 0 where
  pub name : String
  pub labels : Dict String
  pub annotations : Dict String
  pub deleting : Bool
  pub spec : ComputeInstanceSpec
  pub status : ComputeInstanceStatus

pub record InstancePoolSpec : Type 0 where
  pub name : String
  pub replicas : ℤ
  pub template : ComputeInstanceSpec

-- `NetworkGeneric` of the core repository; an address is the text that it prints.
pub record NetworkGeneric : Type 0 where
  pub node_network : IPv4Prefix
  pub dns_nameservers : List String

-- `WorkloadPools` is a pointer that the version 1 handler always sets.
pub record ComputeClusterSpec : Type 0 where
  pub pause : Bool
  pub tags : List Tag
  pub region_id : String
  pub network : Option NetworkGeneric
  pub workload_pools : List ComputeClusterWorkloadPoolSpec
  pub pools : List InstancePoolSpec

pub record MachineStatus : Type 0 where
  pub id : String
  pub hostname : String
  pub flavor_id : String
  pub image_id : String
  pub private_ip : Option String
  pub public_ip : Option String
  pub status : InstanceLifecyclePhase
  pub conditions : List Condition

-- `Replicas` only ever counts machines.
pub record WorkloadPoolStatus : Type 0 where
  pub name : String
  pub replicas : ℕ
  pub machines : List MachineStatus

pub record InstancePoolStatus : Type 0 where
  pub name : String
  pub replicas : ℤ

pub record ComputeClusterStatus : Type 0 where
  pub ssh_private_key : Option String
  pub workload_pools : List WorkloadPoolStatus
  pub conditions : List Condition
  pub pools : List InstancePoolStatus

pub record ComputeCluster : Type 0 where
  pub name : String
  pub labels : Dict String
  pub annotations : Dict String
  pub deleting : Bool
  pub spec : ComputeClusterSpec
  pub status : ComputeClusterStatus
