-- ===== src/External/Region.antt =====
-- The region service's version 1 interface. `metadata` and `status` fields stand in the records
-- themselves. A `*bool` inside an object that holds nothing else is the object's `Option Bool`.
use native.Mathlib.Decide.{ℕ_discrete}
use uni_compute.Base.{ℕ, String, Bool, Option, List, Eq, string_eq}
use uni_compute.External.Core.{Tag, ResourceProvisioningStatus, ResourceHealthStatus}

-- `InstanceLifecyclePhase`, the same four texts in the interface and in the custom resources.
pub data InstanceLifecyclePhase : Type 0 where
  pending running stopping stopped : InstanceLifecyclePhase

pub record AllowedAddressPair : Type 0 where
  pub cidr : String
  pub mac_address : Option String

pub record ServerNetwork : Type 0 where
  pub id : String
  pub allowed_address_pairs : Option (List AllowedAddressPair)

pub record ServerSpec : Type 0 where
  pub flavor_id : String
  pub image_id : String
  pub networks : List ServerNetwork
  pub public_ip_allocation : Option Bool
  pub security_groups : Option (List String)
  pub user_data : Option (List ℕ)

ServerSpec-discrete : Discrete ServerSpec
ServerSpec-discrete = hlevel (string_eq.dec, ℕ_discrete)

-- `reflect.DeepEqual` on specifications.
instance unfoldable pub server_spec_eq : Eq ServerSpec
unfolding ServerSpec-discrete
server_spec_eq = record { dec = ServerSpec-discrete }

pub record ServerRead : Type 0 where
  pub id : String
  pub name : String
  pub tags : Option (List Tag)
  pub deletion_time : Option ℕ
  pub provisioning_status : ResourceProvisioningStatus
  pub health_status : ResourceHealthStatus
  pub spec : ServerSpec
  pub private_ip : Option String
  pub public_ip : Option String
  pub phase : Option InstanceLifecyclePhase

pub record ServerWrite : Type 0 where
  pub name : String
  pub description : Option String
  pub tags : Option (List Tag)
  pub spec : ServerSpec

pub data NetworkDirection : Type 0 where
  ingress egress : NetworkDirection

pub data NetworkProtocol : Type 0 where
  tcp udp : NetworkProtocol

pub record SecurityGroupRulePortRange : Type 0 where
  pub start : ℕ
  pub end : ℕ

pub record SecurityGroupRulePort : Type 0 where
  pub number : Option ℕ
  pub range : Option SecurityGroupRulePortRange

pub record SecurityGroupRule : Type 0 where
  pub direction : NetworkDirection
  pub protocol : NetworkProtocol
  pub port : Option SecurityGroupRulePort
  pub cidr : Option String

abbrev pub SecurityGroupSpec : Type 0
SecurityGroupSpec = List SecurityGroupRule

SecurityGroupSpec-discrete : Discrete SecurityGroupSpec
SecurityGroupSpec-discrete = hlevel (string_eq.dec, ℕ_discrete)

instance unfoldable pub security_group_spec_eq : Eq SecurityGroupSpec
unfolding SecurityGroupSpec-discrete
security_group_spec_eq = record { dec = SecurityGroupSpec-discrete }

pub record SecurityGroupRead : Type 0 where
  pub id : String
  pub name : String
  pub tags : Option (List Tag)
  pub rules : SecurityGroupSpec

pub record SecurityGroupWrite : Type 0 where
  pub name : String
  pub description : Option String
  pub tags : Option (List Tag)
  pub rules : SecurityGroupSpec

pub record IdentityRead : Type 0 where
  pub id : String
  pub provisioning_status : ResourceProvisioningStatus
  -- `Spec.Openstack`, a pointer, with its one field that is read.
  pub openstack : Option (Option String)

pub record NetworkRead : Type 0 where
  pub id : String
  pub provisioning_status : ResourceProvisioningStatus
