-- ===== src/External/RegionV2.antt =====
-- The region service's version 2 interface, and the world around the instance controller.
use native.Mathlib.Decide.{ℕ_discrete}
use uni_compute.Base.{ℕ, String, Bool, Option, List, Eq, string_eq}
use uni_compute.External.Core.{Tag, Conditions, ResourceProvisioningStatus, ResourceHealthStatus}
use uni_compute.External.Region.{InstanceLifecyclePhase}
use uni_compute.External.Env.{Reply}

pub record ServerV2Networking : Type 0 where
  pub security_groups : Option (List String)
  pub public_ip : Option Bool
  pub allowed_source_addresses : Option (List String)

pub record ServerV2Spec : Type 0 where
  pub flavor_id : String
  pub image_id : String
  pub networking : Option ServerV2Networking
  pub user_data : Option (List ℕ)

ServerV2Spec-discrete : Discrete ServerV2Spec
ServerV2Spec-discrete = hlevel (string_eq.dec, ℕ_discrete)

-- `reflect.DeepEqual` on specifications.
instance unfoldable pub server_v2_spec_eq : Eq ServerV2Spec
unfolding ServerV2Spec-discrete
server_v2_spec_eq = record { dec = ServerV2Spec-discrete }

pub record ServerV2Read : Type 0 where
  pub id : String
  pub provisioning_status : ResourceProvisioningStatus
  pub health_status : ResourceHealthStatus
  pub spec : ServerV2Spec
  pub private_ip : Option String
  pub public_ip : Option String
  pub power_state : Option InstanceLifecyclePhase

-- The body of an update, and of a creation, which also names the network.
pub record ServerV2Update : Type 0 where
  pub name : String
  pub description : Option String
  pub tags : List Tag
  pub spec : ServerV2Spec

pub record ServerV2Create : Type 0 where
  pub name : String
  pub description : Option String
  pub tags : List Tag
  pub network_id : String
  pub spec : ServerV2Spec

-- `GetApiV2ServersParams`
pub record ServersParams : Type 0 where
  pub organization : String
  pub project : String
  pub region : String
  pub network : String
  pub tag : String

pub data RequestV2 : Type 0 where
  list_servers : ServersParams → RequestV2
  create_server : ServerV2Create → RequestV2
  update_server : String → ServerV2Update → RequestV2
  delete_server : String → RequestV2
  delete_allocations : String → RequestV2

-- The requests that were sent, the newest first.
abbrev pub HistoryV2 : Type 0
HistoryV2 = List RequestV2

pub record EnvV2 : Type 0 where
  pub name_label : String
  pub organization_label : String
  pub project_label : String
  pub region_label : String
  pub network_label : String
  -- The error with which a client cannot be had.
  pub connect : HistoryV2 → Option ℕ
  pub servers : HistoryV2 → Reply (List ServerV2Read)
  pub server : HistoryV2 → Reply ServerV2Read
  pub deletion : HistoryV2 → Reply (Unit {0})
  -- The release of quota allocations by the identity service.
  pub release : HistoryV2 → Option ℕ
  pub conditions : Conditions
