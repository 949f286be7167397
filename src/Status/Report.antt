-- ===== src/Status/Report.antt =====
-- What `UpdateClusterStatus` leaves in the cluster's status.
use uni_compute.Base.{
  ℕ, Bool, some, ◌≡◌, refl, ◌∙◌, sym, ap, String, List, [], ◌∷◌, ◌++◌, map, All, count,
  count-le-length, length, eqb, Distinct, if◌then◌else◌, ◌==◌, string_eq, arith,
}
use uni_compute.Base.Result.{Error, ok, err}
use uni_compute.Base.Sort.{
  sort_by, length-sort_by, IsSorted, sort_by-IsSorted, total-sort_by, All-sort_by, Distinct-sort_by,
}
use uni_compute.External.Core.{
  Conditions, AreLawful, ConditionType, ResourceHealthStatus, condition_type_eq, health_eq, healthy,
  Condition, ConditionReason, is_true, is_false,
}
use uni_compute.External.Region.{ServerRead}
use uni_compute.Api.{WorkloadPoolStatus, ComputeCluster}
use uni_compute.Status.{
  get_workload_pool_tag, update_server_statuses, update_server_status, update_cluster_status,
  sort_machines, convert_health_status_condition, every_func, server_health_status_match,
  overall_health, finish_status,
}
use uni_compute.Status.Pools.{
  pool_names, tagged, IsTagged, replicas_if, replicas_of, IsCounted, AreSound, after,
  update_server_statuses-append, update_server_statuses-ok, after-AreSound, replicas_of-after,
}

-- What the stored statuses say of the servers: as many replicas of each pool as servers carry its
-- tag, as many machines as replicas, one status for a pool, in the order of the names, and the
-- machines in the order of their host names.
pub record Reports (servers : List ServerRead) (pools : List WorkloadPoolStatus) : Type 0 where
  pub tallied : (name : String) → replicas_of name pools ≡ count (tagged name) servers
  pub counted : All IsCounted pools
  pub distinct : Distinct (pool_names pools)
  pub ordered : IsSorted (λ p. p.name) pools
  pub machines_ordered : All (λ p. IsSorted (λ m. m.hostname) p.machines) pools

total-sort_machines :
    (name : String) (pools : List WorkloadPoolStatus)
    → replicas_of name (map sort_machines pools) ≡ replicas_of name pools
total-sort_machines name [] = refl
total-sort_machines name (p ∷ pools) = ground (arith, total-sort_machines name pools)

names-sort_machines :
    (pools : List WorkloadPoolStatus) → pool_names (map sort_machines pools) ≡ pool_names pools
names-sort_machines [] = refl
names-sort_machines (p ∷ pools) = ap (◌∷◌ p.name) (names-sort_machines pools)

IsSorted-sort_machines :
    (pools : List WorkloadPoolStatus)
    → IsSorted (λ p. p.name) pools
    → IsSorted (λ p. p.name) (map sort_machines pools)
IsSorted-sort_machines [] h = tt
IsSorted-sort_machines (p ∷ []) h = tt
IsSorted-sort_machines (p ∷ q ∷ pools) h = (h.0, IsSorted-sort_machines (q ∷ pools) h.1)

IsCounted-sort_machines :
    (pools : List WorkloadPoolStatus)
    → All IsCounted pools
    → All IsCounted (map sort_machines pools)
IsCounted-sort_machines [] h = tt
IsCounted-sort_machines (p ∷ pools) h =
    (h.0 ∙ sym (length-sort_by (λ m. m.hostname) p.machines), IsCounted-sort_machines pools h.1)

machines-IsSorted :
    (pools : List WorkloadPoolStatus)
    → All (λ p. IsSorted (λ m. m.hostname) p.machines) (map sort_machines pools)
machines-IsSorted [] = tt
machines-IsSorted (p ∷ pools) =
    (sort_by-IsSorted (λ m. m.hostname) p.machines, machines-IsSorted pools)

-- Sorting keeps the report.
Reports-sort :
    (servers : List ServerRead) (pools : List WorkloadPoolStatus)
    → AreSound pools
    → ((name : String) → replicas_of name pools ≡ count (tagged name) servers)
    → Reports servers (map sort_machines (sort_by (λ p. p.name) pools))
Reports-sort servers pools h tally =
    let sorted = sort_by (λ (p : WorkloadPoolStatus). p.name) pools in
    record {
      tallied = λ name.
          total-sort_machines name sorted
          ∙ total-sort_by (λ p. p.name) (replicas_if name) pools
          ∙ tally name;
      counted =
          IsCounted-sort_machines sorted (All-sort_by (λ p. p.name) IsCounted pools h.counted);
      distinct = rw (names-sort_machines sorted) (Distinct-sort_by (λ p. p.name) pools h.distinct);
      ordered = IsSorted-sort_machines sorted (sort_by-IsSorted (λ p. p.name) pools);
      machines_ordered = machines-IsSorted sorted;
    }

-- The health condition that stands for a health.
abbrev pub health_condition : ResourceHealthStatus → Condition
health_condition h = record {
  type = healthy;
  status = if h == ResourceHealthStatus.healthy then is_true else is_false;
  reason = elim h [
    | ResourceHealthStatus.healthy ↦ ConditionReason.healthy
    | ResourceHealthStatus.degraded ↦ ConditionReason.degraded
    | ResourceHealthStatus.error ↦ ConditionReason.errored
    | ResourceHealthStatus.unknown ↦ ConditionReason.unknown
  ];
  message = elim h [
    | ResourceHealthStatus.healthy ↦ "healthy"
    | ResourceHealthStatus.degraded ↦ "degraded"
    | ResourceHealthStatus.error ↦ "error"
    | ResourceHealthStatus.unknown ↦ "health unknown"
  ];
}

pub convert_health_status_condition-healthy :
    (h : ResourceHealthStatus) → convert_health_status_condition healthy h ≡ health_condition h
unfolding convert_health_status_condition
convert_health_status_condition-healthy h = ground arith

-- How many servers have that health.
abbrev pub with_health : ResourceHealthStatus → List ServerRead → ℕ
with_health h = count λ server. server.health_status == h

-- The health that all the servers share, or degraded. Of no servers it is healthy.
abbrev pub common_health : List ServerRead → ResourceHealthStatus
common_health servers =
    if eqb (with_health ResourceHealthStatus.healthy servers) (length servers)
    then ResourceHealthStatus.healthy
    else if eqb (with_health ResourceHealthStatus.error servers) (length servers)
    then ResourceHealthStatus.error
    else if eqb (with_health ResourceHealthStatus.unknown servers) (length servers)
    then ResourceHealthStatus.unknown
    else ResourceHealthStatus.degraded

every_func-count :
    (p : ServerRead → Bool) (servers : List ServerRead)
    → every_func servers p ≡ eqb (count p servers) (length servers)
unfolding every_func
every_func-count p [] = refl
every_func-count p (server ∷ servers) =
    ground (arith, every_func-count p servers, count-le-length p servers)

overall_health-common_health :
    (servers : List ServerRead) → overall_health servers ≡ common_health servers
unfolding overall_health
overall_health-common_health servers = ground (
  arith,
  every_func-count (server_health_status_match ResourceHealthStatus.healthy) servers,
  every_func-count (server_health_status_match ResourceHealthStatus.error) servers,
  every_func-count (server_health_status_match ResourceHealthStatus.unknown) servers,
)

module _ (c : Conditions) (cluster : ComputeCluster) where
  -- If every server has its pool's tag, the update succeeds and the statuses report the servers.
  pub update_cluster_status-Reports :
      (servers : List ServerRead)
      → All IsTagged servers
      → ((update_cluster_status c cluster servers).0 ≡ ok tt)
        × Reports servers (update_cluster_status c cluster servers).1.status.workload_pools
  unfolding update_cluster_status
  update_cluster_status-Reports servers t =
      rw (update_server_statuses-ok c servers [] t, finish_status)
        (
          refl,
          Reports-sort servers (after c [] servers)
              (after-AreSound c servers [] t (record { counted = tt; distinct = tt }))
              (λ name. omega (arith, replicas_of-after c name servers [] t)),
        )

  -- The first server without its pool's tag ends the update with its error. The statuses then
  -- count the servers before it only, and the cluster keeps its conditions, its health among them.
  pub update_cluster_status-untagged :
      (before rest : List ServerRead) (server : ServerRead) {e : Error}
      → All IsTagged before
      → get_workload_pool_tag server.tags ≡ err e
      → let (r, t) = update_cluster_status c cluster (before ++ (server ∷ rest)) in
        (r ≡ err e)
        × (t.status.conditions ≡ cluster.status.conditions)
        × ((name : String) → replicas_of name t.status.workload_pools ≡ count (tagged name) before)
  unfolding update_cluster_status update_server_statuses update_server_status
  update_cluster_status-untagged before rest server t untagged =
      rw
        (
          update_server_statuses-append c before (server ∷ rest) [] t,
          untagged,
          update_server_statuses,
          update_server_status,
          finish_status,
        )
        (refl, refl, λ name. omega (arith, replicas_of-after c name before [] t))

  -- If every server has its pool's tag, the stored health condition says healthy, error or unknown
  -- where all the servers are that, degraded where they are mixed, and healthy where there is none;
  -- it is true for healthy alone. Every other condition stays as it was.
  pub update_cluster_status-health :
      AreLawful c
      → (servers : List ServerRead) (t : ConditionType) → All IsTagged servers
      → c.read (update_cluster_status c cluster servers).1.status.conditions t ≡ (
          if healthy == t
          then some (health_condition (common_health servers))
          else c.read cluster.status.conditions t)
  unfolding update_cluster_status
  update_cluster_status-health lawful servers t tags =
      let health = health_condition (common_health servers) in
      rw
        (
          update_server_statuses-ok c servers [] tags,
          finish_status,
          overall_health-common_health servers,
          convert_health_status_condition-healthy (common_health servers),
        )
        (ground (arith, lawful.read-update cluster.status.conditions health t))
