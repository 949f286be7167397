-- ===== src/Api/Accessors.antt =====
-- helpers.go of pkg/apis/unikorn/v1alpha1.
use uni_compute.Base.{String, Bool, true, false, Option, none, some, List, [], ◌∷◌, find, ◌==◌}
use uni_compute.Base.{string_eq, if◌then◌else◌}
use uni_compute.Base.Dict.{Dict}
use uni_compute.Base.Result.{Result, ok}
use uni_compute.External.Core.{Condition, ConditionType, Conditions}
use uni_compute.Api.{
  ComputeCluster, ComputeClusterWorkloadPoolSpec, ComputeInstance, WorkloadPoolStatus,
}

-- `Paused` of a cluster and of an instance.
abbrev pub cluster_paused : ComputeCluster → Bool
cluster_paused cluster = cluster.spec.pause

abbrev pub instance_paused : ComputeInstance → Bool
instance_paused instance_ = instance_.spec.pause

-- `ResourceLabels` of both is the nil set.
abbrev pub cluster_resource_labels : ComputeCluster → Result (Dict String)
cluster_resource_labels cluster = ok []

abbrev pub instance_resource_labels : ComputeInstance → Result (Dict String)
instance_resource_labels instance_ = ok []

module _ (conditions : Conditions) where
  -- `StatusConditionRead` and `StatusConditionWrite` of a cluster.
  abbrev pub cluster_condition_read : ComputeCluster → ConditionType → Option Condition
  cluster_condition_read cluster type = conditions.read cluster.status.conditions type

  abbrev pub cluster_condition_write : ComputeCluster → Condition → ComputeCluster
  cluster_condition_write cluster condition = record cluster {
    status = record (cluster.status) {
      conditions = conditions.update cluster.status.conditions condition;
    };
  }

  -- The same of an instance.
  abbrev pub instance_condition_read : ComputeInstance → ConditionType → Option Condition
  instance_condition_read instance_ type = conditions.read instance_.status.conditions type

  abbrev pub instance_condition_write : ComputeInstance → Condition → ComputeInstance
  instance_condition_write instance_ condition = record instance_ {
    status = record (instance_.status) {
      conditions = conditions.update instance_.status.conditions condition;
    };
  }

-- `GetWorkloadPool`
abbrev pub get_workload_pool :
    List ComputeClusterWorkloadPoolSpec → String → Option ComputeClusterWorkloadPoolSpec
get_workload_pool pools name = find (λ pool. pool.name == name) pools

-- `HasFirewallRules`
abbrev pub has_firewall_rules : ComputeClusterWorkloadPoolSpec → Bool
has_firewall_rules pool = elim pool.firewall [ [] ↦ false | _ ↦ true ]

-- `GetWorkloadPoolStatus` returns a pointer into the list, to the first status of that name or to
-- a new one at the end. This applies `f` at that place.
unfoldable pub update_workload_pool_status :
    String
    → (WorkloadPoolStatus → WorkloadPoolStatus)
    → List WorkloadPoolStatus
    → List WorkloadPoolStatus
update_workload_pool_status name f [] = f (record { name = name; replicas = 0; machines = [] }) ∷ []
update_workload_pool_status name f (status ∷ rest) =
    let more = update_workload_pool_status name f rest in
    if name == status.name then f status ∷ rest else status ∷ more

-- `PublicIPEnabled`
abbrev pub public_ip_enabled : ComputeInstance → Bool
public_ip_enabled instance_ = elim instance_.spec.networking [ none ↦ false | some n ↦ n.public_ip ]
