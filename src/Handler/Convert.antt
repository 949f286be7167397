-- ===== src/Handler/Convert.antt =====
-- conversion.go, from a custom resource to the API: pools, and the status of machines.
pub mod Health
use uni_compute.Base.{
  ℕ, String, Bool, true, false, Option, none, some, List, [], ◌∷◌, map, if◌then◌else◌, ◌==◌,
  string_eq,
}
use uni_compute.External.Core.{
  IPv4Prefix, Condition, ConditionType, available, healthy, ConditionReason, Conditions,
  ResourceProvisioningStatus, ResourceHealthStatus,
}
use uni_compute.External.Region.{InstanceLifecyclePhase, pending, running, stopping, stopped}
use uni_compute.Api.{
  ComputeClusterWorkloadPoolSpec, ComputeWorkloadPoolAddressPair, ComputeWorkloadPoolImageSelector,
  FirewallRule, FirewallRuleDirection, FirewallRuleProtocol, MachineStatus, WorkloadPoolStatus,
}
use uni_compute.OpenApi.{
  RuleDirection, RuleProtocol, Rule, AddressPair, ImageSelector, ComputeImage, MachinePool,
  WorkloadPool, ComputeClusterMachineStatus, ComputeClusterWorkloadPoolStatus,
}

-- `convertAllowedAddressPairs`
abbrev pub convert_pair : ComputeWorkloadPoolAddressPair → AddressPair
convert_pair pair = record {
  cidr = pair.cidr.text;
  mac_address = if pair.mac_address == "" then none else some pair.mac_address;
}

unfoldable pub convert_allowed_address_pairs :
    List ComputeWorkloadPoolAddressPair → Option (List AddressPair)
convert_allowed_address_pairs pairs = some (map convert_pair pairs)

abbrev convert_selector : ComputeWorkloadPoolImageSelector → ImageSelector
convert_selector selector = record {
  distro = selector.distro;
  variant = selector.variant;
  version = selector.version;
}

-- `convertImage`
unfoldable pub convert_image : ComputeClusterWorkloadPoolSpec → ComputeImage
convert_image pool = elim pool.image_selector [
  | none ↦ record { id = some pool.image_id; selector = none }
  | some selector ↦ record { id = none; selector = some (convert_selector selector) }
]

-- `convertDirection`
abbrev pub convert_direction : FirewallRuleDirection → RuleDirection
convert_direction FirewallRuleDirection.ingress = RuleDirection.ingress
convert_direction FirewallRuleDirection.egress = RuleDirection.egress

-- `convertProtocol`
abbrev pub convert_protocol : FirewallRuleProtocol → RuleProtocol
convert_protocol FirewallRuleProtocol.tcp = RuleProtocol.tcp
convert_protocol FirewallRuleProtocol.udp = RuleProtocol.udp

-- `convertPrefixes`
abbrev pub convert_prefixes : List IPv4Prefix → List String
convert_prefixes = map λ prefix. prefix.text

-- `convertFirewallRule`
unfoldable pub convert_firewall_rule : FirewallRule → Rule
convert_firewall_rule rule = record {
  direction = convert_direction rule.direction;
  port = rule.port;
  port_max = rule.port_max;
  prefixes = convert_prefixes rule.prefixes;
  protocol = convert_protocol rule.protocol;
}

-- `convertFirewallRules`
unfoldable pub convert_firewall_rules : List FirewallRule → Option (List Rule)
convert_firewall_rules [] = none
convert_firewall_rules (rule ∷ rules) = some (map convert_firewall_rule (rule ∷ rules))

-- `convertMachine`
unfoldable pub convert_machine : ComputeClusterWorkloadPoolSpec → MachinePool
convert_machine pool = record {
  allowed_address_pairs = convert_allowed_address_pairs pool.allowed_address_pairs;
  firewall = convert_firewall_rules pool.firewall;
  flavor_id = pool.flavor_id;
  image = convert_image pool;
  public_ip_allocation = pool.public_ip_allocation;
  replicas = pool.replicas;
  user_data = pool.user_data;
}

-- `convertWorkloadPool`
unfoldable pub convert_workload_pool : ComputeClusterWorkloadPoolSpec → WorkloadPool
convert_workload_pool pool = record { name = pool.name; machine = convert_machine pool }

-- `convertMachineStatusStatus`
abbrev pub convert_phase : InstanceLifecyclePhase → InstanceLifecyclePhase
convert_phase running = running
convert_phase stopping = stopping
convert_phase stopped = stopped
convert_phase _ = pending

-- `convertProvisioningStatus`
unfoldable pub convert_provisioning_status : ConditionReason → ResourceProvisioningStatus
convert_provisioning_status ConditionReason.deprovisioning =
    ResourceProvisioningStatus.deprovisioning
convert_provisioning_status ConditionReason.errored = ResourceProvisioningStatus.error
convert_provisioning_status ConditionReason.provisioned = ResourceProvisioningStatus.provisioned
convert_provisioning_status ConditionReason.provisioning = ResourceProvisioningStatus.provisioning
convert_provisioning_status _ = ResourceProvisioningStatus.unknown

-- `convertHealthStatus`
unfoldable pub convert_health_status : ConditionReason → ResourceHealthStatus
convert_health_status ConditionReason.healthy = ResourceHealthStatus.healthy
convert_health_status ConditionReason.degraded = ResourceHealthStatus.degraded
convert_health_status _ = ResourceHealthStatus.unknown

abbrev pub provisioning_of : Option Condition → ResourceProvisioningStatus
provisioning_of none = ResourceProvisioningStatus.unknown
provisioning_of (some condition) = convert_provisioning_status condition.reason

abbrev pub health_of : Option Condition → ResourceHealthStatus
health_of none = ResourceHealthStatus.unknown
health_of (some condition) = convert_health_status condition.reason

module _ (c : Conditions) where
  -- `convertMachineStatus`
  unfoldable pub convert_machine_status : MachineStatus → ComputeClusterMachineStatus
  convert_machine_status machine = record {
    id = machine.id;
    hostname = machine.hostname;
    flavor_id = machine.flavor_id;
    image_id = machine.image_id;
    private_ip = machine.private_ip;
    public_ip = machine.public_ip;
    status = convert_phase machine.status;
    provisioning_status = provisioning_of (c.read machine.conditions available);
    health_status = health_of (c.read machine.conditions healthy);
  }

  -- `convertWorkloadPoolStatus`, and `convertMachinesStatus` in it.
  unfoldable pub convert_workload_pool_status :
      WorkloadPoolStatus → ComputeClusterWorkloadPoolStatus
  convert_workload_pool_status pool = record {
    name = pool.name;
    replicas = pool.replicas;
    machines = map convert_machine_status pool.machines;
  }
