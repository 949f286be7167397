-- ===== src/Handler/Generate.antt =====
-- conversion.go, from the API to a custom resource: the workload pools of a cluster.
pub mod Parsing
pub mod RoundTrip
use uni_compute.Base.{
  ℕ, String, Bool, true, false, Option, none, some, List, [], ◌∷◌, map, find, ◌==◌, string_eq,
}
use uni_compute.Base.Result.{Error, invalid_request, unspecified, Result, ok, err, panic, ◌>>=◌}
use uni_compute.Base.State
use uni_compute.Base.State.{pure, lift}
use uni_compute.External.Core.{IPv4Prefix}
use uni_compute.External.Catalog.{Flavor, Image, RegionRead, HandlerEnv}
use uni_compute.Api.{
  ComputeCluster, ComputeClusterWorkloadPoolSpec, ComputeWorkloadPoolAddressPair,
  ComputeWorkloadPoolImageSelector, FirewallRule, FirewallRuleDirection, FirewallRuleProtocol,
}
use uni_compute.OpenApi.{
  RuleDirection, RuleProtocol, Rule, AddressPair, ImageSelector, ComputeImage, MachinePool,
  WorkloadPool,
}
use uni_compute.Handler.Client.{Handler, regions, flavors, images}
use uni_compute.Handler.Images.{choose_image}

-- `lookupFlavor`, from the flavors of the region.
unfoldable pub lookup_flavor : List Flavor → String → Result Flavor
lookup_flavor all id = elim (find (λ (flavor : Flavor). flavor.id == id) all) [
  | none ↦ err invalid_request
  | some flavor ↦ ok flavor
]

-- `lookupRegion`, from the regions.
unfoldable pub lookup_region : List RegionRead → String → Result RegionRead
lookup_region all id = elim (find (λ (region : RegionRead). region.id == id) all) [
  | none ↦ err invalid_request
  | some region ↦ ok region
]

-- `generateFirewallRuleDirection`
abbrev pub generate_direction : RuleDirection → FirewallRuleDirection
generate_direction RuleDirection.ingress = FirewallRuleDirection.ingress
generate_direction RuleDirection.egress = FirewallRuleDirection.egress

-- `generateFirewallRuleProtocol`
abbrev pub generate_protocol : RuleProtocol → FirewallRuleProtocol
generate_protocol RuleProtocol.tcp = FirewallRuleProtocol.tcp
generate_protocol RuleProtocol.udp = FirewallRuleProtocol.udp

-- `generateImageSelector`
unfoldable pub generate_image_selector :
    ComputeImage → Result (Option ComputeWorkloadPoolImageSelector)
generate_image_selector image = elim image.id [
  | some _ ↦ ok none
  | none ↦ elim image.selector [
    | none ↦ panic
    | some s ↦ ok (some (record { distro = s.distro; variant = s.variant; version = s.version }))
  ]
]

module _ (parse : String → Option IPv4Prefix) where
  -- `net.ParseCIDR`, whose error is passed on.
  abbrev pub parse_cidr : String → Result IPv4Prefix
  parse_cidr t = elim (parse t) [ none ↦ err unspecified | some prefix ↦ ok prefix ]

  -- `generatePrefixes`
  unfoldable pub generate_prefixes : List String → Result (List IPv4Prefix)
  generate_prefixes [] = ok []
  generate_prefixes (t ∷ ts) =
      parse_cidr t >>= λ prefix. generate_prefixes ts >>= λ prefixes. ok (prefix ∷ prefixes)

  -- `generateFirewallRule`
  unfoldable pub generate_firewall_rule : Rule → Result FirewallRule
  generate_firewall_rule rule = generate_prefixes rule.prefixes >>= λ prefixes. ok (record {
    direction = generate_direction rule.direction;
    protocol = generate_protocol rule.protocol;
    prefixes = prefixes;
    port = rule.port;
    port_max = rule.port_max;
  })

  -- The loop of `generateFirewallRules`.
  unfoldable pub generate_rules : List Rule → Result (List FirewallRule)
  generate_rules [] = ok []
  generate_rules (rule ∷ rules) =
      generate_firewall_rule rule >>= λ r. generate_rules rules >>= λ rs. ok (r ∷ rs)

  -- `generateFirewallRules`
  unfoldable pub generate_firewall_rules : Option (List Rule) → Result (List FirewallRule)
  generate_firewall_rules none = ok []
  generate_firewall_rules (some rules) = generate_rules rules

  -- The loop of `generateAllowedAddressPairs`.
  unfoldable pub generate_pairs : List AddressPair → Result (List ComputeWorkloadPoolAddressPair)
  generate_pairs [] = ok []
  generate_pairs (pair ∷ pairs) = parse_cidr pair.cidr >>= λ cidr. generate_pairs pairs >>= λ rest.
      ok (
        record { cidr = cidr; mac_address = elim pair.mac_address [ none ↦ "" | some mac ↦ mac ] }
        ∷ rest)

  -- `generateAllowedAddressPairs`
  unfoldable pub generate_allowed_address_pairs :
      Option (List AddressPair) → Result (List ComputeWorkloadPoolAddressPair)
  generate_allowed_address_pairs none = ok []
  generate_allowed_address_pairs (some pairs) = generate_pairs pairs

  -- The rest of the body of the loop of `generateWorkloadPools`, once the flavor and the image are
  -- chosen.
  unfoldable pub assemble : WorkloadPool → Flavor → Image → Result ComputeClusterWorkloadPoolSpec
  assemble pool flavor image = generate_firewall_rules pool.machine.firewall >>= λ firewall.
      generate_allowed_address_pairs pool.machine.allowed_address_pairs >>= λ pairs.
      generate_image_selector pool.machine.image >>= λ selector. ok (record {
        name = pool.name;
        replicas = pool.machine.replicas;
        image_id = image.id;
        flavor_id = flavor.id;
        public_ip_allocation = pool.machine.public_ip_allocation;
        firewall = firewall;
        user_data = pool.machine.user_data;
        image_selector = selector;
        allowed_address_pairs = pairs;
      })

  module _ (env : HandlerEnv) (organization region : String) (current : Option ComputeCluster) where
    -- The body of the loop of `generateWorkloadPools`, with `generateMachineGeneric`,
    -- `lookupFlavor` and `chooseImage` in it.
    unfoldable pub generate_workload_pool : WorkloadPool → Handler ComputeClusterWorkloadPoolSpec
    generate_workload_pool pool = State.◌>>=◌ (flavors env organization region) λ all.
        State.◌>>=◌ (lift (lookup_flavor all pool.machine.flavor_id)) λ flavor.
          State.◌>>=◌ (images env organization region) λ offered.
            State.◌>>=◌ (lift (choose_image current pool.name pool.machine.image offered))
              λ image. lift (assemble pool flavor image)

    -- `generateWorkloadPools`
    unfoldable pub generate_workload_pools :
        List WorkloadPool → Handler (List ComputeClusterWorkloadPoolSpec)
    generate_workload_pools [] = pure []
    generate_workload_pools (pool ∷ pools) =
        State.◌>>=◌ (generate_workload_pool pool)
          λ first. State.◌>>=◌ (generate_workload_pools pools) λ rest. pure (first ∷ rest)
