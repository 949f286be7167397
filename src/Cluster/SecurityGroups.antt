-- ===== src/Cluster/SecurityGroups.antt =====
-- securitygroup.go: the security groups of the pools, at most one for each pool.
pub mod Required
pub mod Loops
pub mod Ready
use uni_compute.Base.{
  ℕ, String, Bool, true, false, not, Option, none, some, List, [], ◌∷◌, ◌++◌, ◌<>◌, map, ◌==◌,
  string_eq, if◌then◌else◌, contains, delete_func,
}
use uni_compute.Base.Dict.{Dict, keys, lookup}
use uni_compute.Base.Result.{Result, ok, err, panic}
use uni_compute.Base.Result
use uni_compute.Base.State.{Comp, ◌>>=◌, ◌>>◌, pure, lift}
use uni_compute.External.Core.{IPv4Prefix}
use uni_compute.External.Region.{
  SecurityGroupRead, SecurityGroupWrite, SecurityGroupRule, SecurityGroupRulePort,
  security_group_spec_eq, NetworkDirection, NetworkProtocol,
}
use uni_compute.External.Env.{Env}
use uni_compute.Api.{
  ComputeCluster, ComputeClusterWorkloadPoolSpec, FirewallRule, FirewallRuleDirection,
  FirewallRuleProtocol,
}
use uni_compute.Api.Accessors.{has_firewall_rules}
use uni_compute.Status.{get_workload_pool_tag}
use uni_compute.Cluster.State.{State}
use uni_compute.Cluster.Client.{
  list_security_groups, create_security_group, update_security_group, delete_security_group,
}
use uni_compute.Cluster.Tags.{tags}
use uni_compute.Cluster.ServerSet.{add}

-- `securityGroupSet`, the groups by pool.
abbrev pub SecurityGroupSet : Type 0
SecurityGroupSet = Dict SecurityGroupRead

-- `securityGroupCreateSet`
abbrev pub SecurityGroupCreateSet : Type 0
SecurityGroupCreateSet = Dict SecurityGroupWrite

-- The loop of `newSecurityGroupSet`.
unfoldable pub add_groups : SecurityGroupSet → List SecurityGroupRead → Result SecurityGroupSet
add_groups set [] = ok set
add_groups set (group ∷ groups) =
    Result.◌>>=◌ (get_workload_pool_tag group.tags)
      λ pool. Result.◌>>=◌ (add pool group set) λ set'. add_groups set' groups

-- `securityGroupName`
abbrev pub security_group_name : ComputeCluster → ComputeClusterWorkloadPoolSpec → String
security_group_name cluster pool = cluster.name <> "-" <> pool.name

-- `regionapi.NetworkDirection(in.Direction)`, the same text.
abbrev pub network_direction : FirewallRuleDirection → NetworkDirection
network_direction FirewallRuleDirection.ingress = NetworkDirection.ingress
network_direction FirewallRuleDirection.egress = NetworkDirection.egress

abbrev pub network_protocol : FirewallRuleProtocol → NetworkProtocol
network_protocol FirewallRuleProtocol.tcp = NetworkProtocol.tcp
network_protocol FirewallRuleProtocol.udp = NetworkProtocol.udp

abbrev pub rule_port : FirewallRule → SecurityGroupRulePort
rule_port rule = elim rule.port_max [
  | none ↦ record { number = some rule.port; range = none }
  | some end ↦ record { number = none; range = some (record { start = rule.port; end = end }) }
]

-- `generateRequiredSecurityGroupRule`
unfoldable pub generate_required_security_group_rule : FirewallRule → IPv4Prefix → SecurityGroupRule
generate_required_security_group_rule rule prefix = record {
  direction = network_direction rule.direction;
  protocol = network_protocol rule.protocol;
  port = some (rule_port rule);
  cidr = some prefix.text;
}

-- `generateRequiredSecurityGroupRules`, of the firewall of a pool.
unfoldable pub generate_required_security_group_rules : List FirewallRule → List SecurityGroupRule
generate_required_security_group_rules [] = []
generate_required_security_group_rules (rule ∷ rules) =
    map (generate_required_security_group_rule rule) rule.prefixes
    ++ generate_required_security_group_rules rules

-- `scheduleServerGroups`: the pools whose groups are to be created, updated and removed.
unfoldable pub schedule_server_groups :
    SecurityGroupSet → SecurityGroupCreateSet → List String × List String × List String
schedule_server_groups current requested =
    let current_names = keys current in
    let requested_names = keys requested in
    (
      delete_func (contains current_names) requested_names,
      delete_func (λ name. not (contains requested_names name)) current_names,
      delete_func (contains requested_names) current_names,
    )

-- `m[name]` is nil, and its use a panic, where the name is missing.
abbrev pub deref : {V : Type 0} → String → Dict V → Result V
deref name m = elim (lookup name m) [ none ↦ panic | some v ↦ ok v ]

module _ (env : Env) where
  -- `newSecurityGroupSet`
  unfoldable pub new_security_group_set : Comp State SecurityGroupSet
  new_security_group_set = do groups ← list_security_groups env; lift (add_groups [] groups)

  -- `generateSecurityGroup` of a pool.
  unfoldable pub generate_security_group_request :
      ComputeCluster → ComputeClusterWorkloadPoolSpec → SecurityGroupWrite
  generate_security_group_request cluster pool = record {
    name = security_group_name cluster pool;
    description = some ("Security group for cluster " <> cluster.name);
    tags = some (tags env cluster pool.name);
    rules = generate_required_security_group_rules pool.firewall;
  }

  -- The loop of `generateSecurityGroupCreateSet`.
  unfoldable pub add_requests :
      ComputeCluster
      → SecurityGroupCreateSet
      → List ComputeClusterWorkloadPoolSpec
      → Result SecurityGroupCreateSet
  add_requests cluster set [] = ok set
  add_requests cluster set (pool ∷ pools) =
      let skip = add_requests cluster set pools in
      let next =
        Result.◌>>=◌ (add pool.name (generate_security_group_request cluster pool) set)
          λ set'. add_requests cluster set' pools in
      if has_firewall_rules pool then next else skip

  -- `generateSecurityGroupCreateSet`
  unfoldable pub generate_security_group_create_set : ComputeCluster → Result SecurityGroupCreateSet
  generate_security_group_create_set cluster = add_requests cluster [] cluster.spec.workload_pools

  -- The creation loop.
  unfoldable pub create_groups :
      SecurityGroupCreateSet → List String → SecurityGroupSet → Comp State SecurityGroupSet
  create_groups required [] set = pure set
  create_groups required (name ∷ names) set = lift (deref name required) >>= λ request.
      create_security_group env request >>= λ group.
      lift (add name group set) >>= create_groups required names

  -- The update loop.
  unfoldable pub update_groups :
      SecurityGroupCreateSet → SecurityGroupSet → List String → Comp State (Unit {0})
  update_groups required set [] = pure tt
  update_groups required set (name ∷ names) = lift (deref name set) >>= λ current.
      lift (deref name required) >>= λ request.
      let rest = update_groups required set names in
      if current.rules == request.rules
      then rest
      else (update_security_group env current.id request >>= λ _. rest)

  -- The removal loop.
  unfoldable pub remove_groups : SecurityGroupSet → List String → Comp State (Unit {0})
  remove_groups set [] = pure tt
  remove_groups set (name ∷ names) = lift (deref name set) >>= λ group.
      delete_security_group env group.id >>= λ _. remove_groups set names

  -- `reconcileSecurityGroups`. The result is the set that the caller goes on with: the groups that
  -- were created are in it, and those that were removed stay in it.
  unfoldable pub reconcile_security_groups :
      ComputeCluster → SecurityGroupSet → Comp State SecurityGroupSet
  reconcile_security_groups cluster groups = do
    required ← lift (generate_security_group_create_set cluster)
    let (create, update, remove) = schedule_server_groups groups required
    set ← create_groups required create groups
    update_groups required set update
    remove_groups set remove
    pure set
