-- ===== src/Handler/Evict.antt =====
-- `generateAllocations` and `Evict` of the cluster handler.
pub mod Hint
pub mod Pools
pub mod Chosen
pub mod Outcome
pub mod Honoured
pub mod Guarded
use uni_compute.Base.{
  ℕ, String, Bool, true, false, not, ◌||◌, Option, none, some, List, [], ◌∷◌, ◌<>◌, map, find,
  length, contains, delete_func, is_some, if◌then◌else◌, eqb, ◌==◌, string_eq,
}
use uni_compute.Base.Int.{ℤ, pos, ◌+ℤ◌, ◌-ℤ◌, times}
use uni_compute.Base.Dict.{lookup, insert}
use uni_compute.Base.Result.{
  Result, ok, err, panic, invalid_request, consistency, unspecified, ◌>>=◌,
}
use uni_compute.Base.State
use uni_compute.Base.State.{Comp, pure, fail, lift}
use uni_compute.External.Region.{ServerRead}
use uni_compute.External.Catalog.{Flavor, Allocation, HandlerRequest, HandlerHistory, HandlerEnv}
use uni_compute.Api.{ComputeCluster, ComputeClusterWorkloadPoolSpec}
use uni_compute.Status.{get_workload_pool_tag}
use uni_compute.Cluster.Reconcile.{deletion_hint}
use uni_compute.Handler.Client.{Handler, flavors, servers, write, get_cluster}

-- `strings.Join(ids, ",")`
unfoldable pub join_commas : List String → String
join_commas [] = ""
join_commas (id ∷ ids) = elim ids [ [] ↦ id | _ ↦ id <> ("," <> join_commas ids) ]

abbrev gpus_of : Flavor → ComputeClusterWorkloadPoolSpec → ℤ
gpus_of flavor pool = elim flavor.gpu [ none ↦ pos 0 | some count ↦ times pool.replicas count ]

-- The loop of `generateAllocations`, with the servers and the GPUs committed so far.
unfoldable pub commit : List Flavor → ℤ → ℤ → List ComputeClusterWorkloadPoolSpec → Result (ℤ × ℤ)
commit all servers gpus [] = ok (servers, gpus)
commit all servers gpus (pool ∷ pools) = elim (find (λ (f : Flavor). f.id == pool.flavor_id) all) [
  | none ↦ err consistency
  | some flavor ↦ commit all (servers +ℤ pool.replicas) (gpus +ℤ gpus_of flavor pool) pools
]

abbrev pub allocations_of : ℤ × ℤ → List Allocation
allocations_of (servers, gpus) =
    record { kind = "clusters"; committed = pos 1 }
    ∷ record { kind = "servers"; committed = servers }
    ∷ record { kind = "gpus"; committed = gpus }
    ∷ []

-- `pool.Replicas--`, at the first pool of the name. The error for a missing pool wraps nil.
unfoldable pub decrement :
    String → List ComputeClusterWorkloadPoolSpec → Result (List ComputeClusterWorkloadPoolSpec)
decrement name [] = err unspecified
decrement name (pool ∷ pools) =
    let rest = decrement name pools >>= λ pools'. ok (pool ∷ pools') in
    if pool.name == name
    then ok (record pool { replicas = pool.replicas -ℤ pos 1 } ∷ pools)
    else rest

-- The loop of `Evict` over the servers.
unfoldable pub take_out :
    List ServerRead
    → List ComputeClusterWorkloadPoolSpec
    → Result (List ComputeClusterWorkloadPoolSpec)
take_out [] pools = ok pools
take_out (server ∷ rest) pools =
    get_workload_pool_tag server.tags >>= λ name. decrement name pools >>= take_out rest

-- The servers to evict: those of the request that are not being deleted.
abbrev pub chosen : List String → List ServerRead → List ServerRead
chosen ids = delete_func λ server. is_some server.deletion_time || not (contains ids server.id)

-- The cluster that `Evict` stores.
abbrev pub evicted :
    List String → List ComputeClusterWorkloadPoolSpec → ComputeCluster → ComputeCluster
evicted ids pools cluster = record cluster {
  annotations = insert deletion_hint (join_commas ids) cluster.annotations;
  spec = record (cluster.spec) { workload_pools = pools };
}

-- The check that no eviction is pending, which the hint would show.
abbrev pub unless_pending : Option String → Handler (Unit {0}) → Handler (Unit {0})
unless_pending (some hint) rest = fail invalid_request
unless_pending none rest = rest

module _ (env : HandlerEnv) where
  -- `generateAllocations`
  unfoldable pub generate_allocations : String → ComputeCluster → Handler (List Allocation)
  generate_allocations organization cluster =
      State.◌>>=◌ (flavors env organization cluster.spec.region_id) λ all.
        State.◌>>=◌ (lift (commit all (pos 0) (pos 0) cluster.spec.workload_pools))
          λ totals. pure (allocations_of totals)

  -- The two writes at the end: the allocations, then the cluster.
  unfoldable pub store : String → ComputeCluster → Handler (Unit {0})
  store organization updated =
      State.◌>>=◌ (generate_allocations organization updated) λ allocations.
        State.◌>>=◌ (write env (HandlerRequest.update_allocations updated allocations))
          λ _. write env (HandlerRequest.patch_cluster updated)

  -- `Evict`, once the servers are known.
  unfoldable pub evict_servers :
      String → List String → ComputeCluster → List ServerRead → Handler (Unit {0})
  evict_servers organization ids cluster all =
      if not (eqb (length (chosen ids all)) (length ids))
      then fail invalid_request
      else (State.◌>>=◌ (lift (take_out (chosen ids all) cluster.spec.workload_pools))
          λ pools. store organization (evicted ids pools cluster))

  unfoldable pub evict_cluster : String → List String → ComputeCluster → Handler (Unit {0})
  evict_cluster organization ids cluster =
      if cluster.deleting
      then fail invalid_request
      else unless_pending (lookup deletion_hint cluster.annotations)
          (State.◌>>=◌ (servers env organization cluster) (evict_servers organization ids cluster))

  -- `Evict`
  unfoldable pub evict : String → String → String → List String → Handler (Unit {0})
  evict organization project id ids =
      State.◌>>=◌ (get_cluster env organization project id) (evict_cluster organization ids)
