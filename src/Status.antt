-- ===== src/Status.antt =====
-- pkg/provisioners/managers/cluster/util/server.go: the pool of a server, and the status of a
-- cluster from the servers that the region service reports.
pub mod Health
pub mod Pools
pub mod Report
use uni_compute.Base.{
  ℕ, suc, ◌+◌, ◌≡◌, String, Bool, true, false, ◌&&◌, Option, none, some, List, [], ◌∷◌, ◌++◌, map,
  find, ◌==◌, string_eq, if◌then◌else◌,
}
use uni_compute.Base.Result.{Error, consistency, Result, ok, err, panic}
use uni_compute.Base.Sort.{sort_by}
use uni_compute.External.Core.{
  Tag, ResourceProvisioningStatus, ResourceHealthStatus, health_eq, Conditions, Condition,
  ConditionType, available, healthy, ConditionStatus, is_true, is_false, ConditionReason,
}
use uni_compute.External.Region.{
  ServerRead, InstanceLifecyclePhase, pending, running, stopping, stopped,
}
use uni_compute.Api.{ComputeCluster, MachineStatus, WorkloadPoolStatus}
use uni_compute.Api.Accessors.{update_workload_pool_status}

abbrev pub workload_pool_label : String
workload_pool_label = "unikorn-cloud.org/workloadpool"

-- `GetWorkloadPoolTag`
unfoldable pub get_workload_pool_tag : Option (List Tag) → Result String
get_workload_pool_tag none = err consistency
get_workload_pool_tag (some tags) = elim (find (λ tag. tag.name == workload_pool_label) tags) [
  | none ↦ err consistency
  | some tag ↦ ok tag.value
]

-- `convertMachineStatusStatus`
abbrev pub convert_machine_status_status : Option InstanceLifecyclePhase → InstanceLifecyclePhase
convert_machine_status_status none = pending
convert_machine_status_status (some running) = running
convert_machine_status_status (some stopping) = stopping
convert_machine_status_status (some stopped) = stopped
convert_machine_status_status (some _) = pending

-- `ConvertProvisioningStatusCondition`, for the condition of a type.
unfoldable pub convert_provisioning_status_condition :
    ConditionType → ResourceProvisioningStatus → Condition
convert_provisioning_status_condition t ResourceProvisioningStatus.provisioning = record {
  type = t;
  status = is_false;
  reason = ConditionReason.provisioning;
  message = "provisioning";
}
convert_provisioning_status_condition t ResourceProvisioningStatus.deprovisioning = record {
  type = t;
  status = is_false;
  reason = ConditionReason.deprovisioning;
  message = "deprovisioning";
}
convert_provisioning_status_condition t ResourceProvisioningStatus.provisioned = record {
  type = t;
  status = is_true;
  reason = ConditionReason.provisioned;
  message = "provisioned";
}
convert_provisioning_status_condition t ResourceProvisioningStatus.error = record {
  type = t;
  status = is_false;
  reason = ConditionReason.errored;
  message = "provisioning error";
}
convert_provisioning_status_condition t _ = record {
  type = t;
  status = is_false;
  reason = ConditionReason.unknown;
  message = "provisioning unknown";
}

-- `ConvertHealthStatusCondition`, for the condition of a type.
unfoldable pub convert_health_status_condition : ConditionType → ResourceHealthStatus → Condition
convert_health_status_condition t ResourceHealthStatus.healthy = record {
  type = t;
  status = is_true;
  reason = ConditionReason.healthy;
  message = "healthy";
}
convert_health_status_condition t ResourceHealthStatus.degraded = record {
  type = t;
  status = is_false;
  reason = ConditionReason.degraded;
  message = "degraded";
}
convert_health_status_condition t ResourceHealthStatus.error = record {
  type = t;
  status = is_false;
  reason = ConditionReason.errored;
  message = "error";
}
convert_health_status_condition t _ = record {
  type = t;
  status = is_false;
  reason = ConditionReason.unknown;
  message = "health unknown";
}

-- `EveryFunc`
unfoldable pub every_func {ℓ} : {A : Type ℓ} → List A → (A → Bool) → Bool
every_func [] f = true
every_func (x ∷ xs) f = let rest = every_func xs f in if f x then rest else false

-- `serverHealthStatusMatch`
abbrev pub server_health_status_match : ResourceHealthStatus → ServerRead → Bool
server_health_status_match status server = server.health_status == status

-- The `switch` of `UpdateClusterStatus`.
unfoldable pub overall_health : List ServerRead → ResourceHealthStatus
unfolding every_func
overall_health servers =
    if every_func servers (server_health_status_match ResourceHealthStatus.healthy)
    then ResourceHealthStatus.healthy
    else if every_func servers (server_health_status_match ResourceHealthStatus.error)
    then ResourceHealthStatus.error
    else if every_func servers (server_health_status_match ResourceHealthStatus.unknown)
    then ResourceHealthStatus.unknown
    else ResourceHealthStatus.degraded

-- What `UpdateServerStatus` does to the pool's status.
abbrev pub add_machine : MachineStatus → WorkloadPoolStatus → WorkloadPoolStatus
add_machine machine pool = record pool {
  replicas = pool.replicas + 1;
  machines = pool.machines ++ (machine ∷ []);
}

-- The last loop of `UpdateClusterStatus`, at one pool.
abbrev pub sort_machines : WorkloadPoolStatus → WorkloadPoolStatus
sort_machines pool = record pool { machines = sort_by (λ m. m.hostname) pool.machines }

module _ (c : Conditions) where
  -- The machine that `UpdateServerStatus` builds.
  unfoldable pub machine_status : ServerRead → MachineStatus
  machine_status server =
      let provisioning =
        convert_provisioning_status_condition available server.provisioning_status in
      let health = convert_health_status_condition healthy server.health_status in
      record {
        id = server.id;
        hostname = server.name;
        flavor_id = server.spec.flavor_id;
        image_id = server.spec.image_id;
        private_ip = server.private_ip;
        public_ip = server.public_ip;
        status = convert_machine_status_status server.phase;
        conditions = c.update (c.update [] provisioning) health;
      }

  -- `UpdateServerStatus`, on the list of pool statuses.
  unfoldable pub update_server_status :
      List WorkloadPoolStatus → ServerRead → Result (List WorkloadPoolStatus)
  update_server_status pools server = elim (get_workload_pool_tag server.tags) [
    | ok name ↦ ok (update_workload_pool_status name (add_machine (machine_status server)) pools)
    | err e ↦ err e
    | panic ↦ panic
  ]

  -- The loop of `UpdateClusterStatus`: the statuses so far, and how the loop ended.
  unfoldable pub update_server_statuses :
      List WorkloadPoolStatus → List ServerRead → Result (Unit {0}) × List WorkloadPoolStatus
  update_server_statuses pools [] = (ok tt, pools)
  update_server_statuses pools (server ∷ servers) = elim (update_server_status pools server) [
    | ok pools' ↦ update_server_statuses pools' servers
    | err e ↦ (err e, pools)
    | panic ↦ (panic, pools)
  ]

  -- What `UpdateClusterStatus` stores when its loop has ended.
  finish_status :
      ComputeCluster
      → List ServerRead
      → Result (Unit {0}) × List WorkloadPoolStatus
      → Result (Unit {0}) × ComputeCluster
  finish_status cluster servers (ok _, pools) = (
    ok tt,
    record cluster {
      status = record (cluster.status) {
        workload_pools = map sort_machines (sort_by (λ p. p.name) pools);
        conditions =
            c.update cluster.status.conditions
              (convert_health_status_condition healthy (overall_health servers));
      };
    },
  )
  finish_status cluster servers (err e, pools) =
      (err e, record cluster { status = record (cluster.status) { workload_pools = pools } })
  finish_status cluster servers (panic, pools) =
      (panic, record cluster { status = record (cluster.status) { workload_pools = pools } })

  -- `UpdateClusterStatus`. A server without its tag ends it early: the statuses of the servers
  -- before it are kept, unsorted, and the health condition stays.
  unfoldable pub update_cluster_status :
      ComputeCluster → List ServerRead → Result (Unit {0}) × ComputeCluster
  unfolding finish_status
  update_cluster_status cluster servers =
      finish_status cluster servers (update_server_statuses [] servers)
