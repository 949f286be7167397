-- ===== src/Cluster/Reconcile/Settled.antt =====
-- A cluster whose servers are what its pools ask for is left alone.
use uni_compute.Base.{
  ◌+◌, total, false, ℕ, suc, ◌≡◌, refl, String, none, some, Option, List, [], ◌∷◌, length, All,
  arith,
}
use uni_compute.Base.Dict.{Dict, lookup}
use uni_compute.Base.Int.{ℤ, pos, exceeds}
use uni_compute.Base.Result.{ok}
use uni_compute.External.Region.{ServerRead, SecurityGroupRead, server_spec_eq}
use uni_compute.External.Env.{Env}
use uni_compute.Api.{ComputeClusterWorkloadPoolSpec}
use uni_compute.Api.Accessors.{get_workload_pool}
use uni_compute.Cluster.State.{State}
use uni_compute.Cluster.ServerSet.{
  ServerSet, generate_security_group, server_spec, needs_update, new_server_pool_set,
}
use uni_compute.Cluster.Reconcile.{
  deletion_hint, preferred_deletion_ids, generate_server, refresh_one, refresh, scale_down,
  shrink_and_refresh, reconcile_pools, clear_hint, creations, create_servers, scale_up,
  reconcile_servers,
}

module _ (env : Env) (network_id : String) (groups : Dict SecurityGroupRead) where
  -- The server has the specification that its pool asks for.
  abbrev pub IsCurrent :
      ComputeClusterWorkloadPoolSpec → Option (List String) → String × ServerRead → Type 0
  IsCurrent pool group (_, server) = server.spec ≡ server_spec network_id pool group

  -- The servers of a pool: the pool exists, has no more than it should, and all are current.
  pub record IsSettledPool (pools : List ComputeClusterWorkloadPoolSpec)
      (entry : String × ServerSet) : Type 0 where
    pub pool : ComputeClusterWorkloadPoolSpec
    pub group : Option (List String)
    pub found : get_workload_pool pools entry.0 ≡ some pool
    pub sized : exceeds (length entry.1) pool.replicas ≡ false
    pub grouped : generate_security_group pool groups ≡ ok group
    pub current : All (IsCurrent pool group) entry.1

  refresh_one-idle :
      (pool : ComputeClusterWorkloadPoolSpec) (group : Option (List String)) (name : String)
      (server : ServerRead) (set : ServerSet) (s : State)
      → generate_security_group pool groups ≡ ok group
      → IsCurrent pool group (name, server)
      → refresh_one env network_id groups pool name server set s
        ≡ (ok set, record s { draws = suc s.draws })
  unfolding refresh_one generate_server needs_update
  refresh_one-idle pool group name server set s g c = ground arith

  -- Only random suffixes are drawn.
  refresh-idle :
      (pool : ComputeClusterWorkloadPoolSpec) (group : Option (List String))
      (entries set : ServerSet) (s : State)
      → generate_security_group pool groups ≡ ok group
      → All (IsCurrent pool group) entries
      → (k : ℕ) × (refresh env network_id groups pool entries set s
          ≡ (ok set, record s { draws = k }))
        × (k ≡ s.draws + length entries)
  unfolding refresh
  refresh-idle pool group [] set s g c = (s.draws, refl, omega arith)
  refresh-idle pool group ((name, server) ∷ entries) set s g c =
      let (k, run, more) =
        refresh-idle pool group entries set (record s { draws = suc s.draws }) g c.1 in
      (k, rw (refresh_one-idle pool group name server set s g c.0) run, omega (arith, more))

  scale_down-idle :
      (preferred : List String) (set : ServerSet) (s : State) (replicas : ℤ)
      → exceeds (length set) replicas ≡ false
      → scale_down env (suc (length set)) replicas preferred set s ≡ (ok set, s)
  unfolding scale_down
  scale_down-idle preferred set s replicas e = rw e refl

  pub reconcile_pools-idle :
      (pools : List ComputeClusterWorkloadPoolSpec) (preferred : List String)
      (sets : Dict ServerSet) (s : State)
      → All (IsSettledPool pools) sets
      → (k : ℕ) × (reconcile_pools env network_id groups pools preferred sets s
          ≡ (ok sets, record s { draws = k }))
        × (k ≡ s.draws + total (λ (e : String × ServerSet). length e.1) sets)
  unfolding reconcile_pools shrink_and_refresh
  reconcile_pools-idle pools preferred [] s h = (s.draws, refl, omega arith)
  reconcile_pools-idle pools preferred ((name, set) ∷ sets) s (h, hs) =
      let (j, first, more) = refresh-idle h.pool h.group set set s h.grouped h.current in
      let (k, rest, most) = reconcile_pools-idle pools preferred sets (record s { draws = j }) hs in
      (
        k,
        rw
            (
              h.found,
              reconcile_pools,
              shrink_and_refresh,
              scale_down-idle preferred set s h.pool.replicas h.sized,
              first,
              rest,
            )
            refl,
        omega (arith, more, most),
      )

  pub scale_up-idle :
      (pools : List ComputeClusterWorkloadPoolSpec) (sets : Dict ServerSet) (s : State)
      → All (λ pool. creations pool sets ≡ pos 0) pools
      → scale_up env network_id groups pools sets s ≡ (ok tt, s)
  unfolding scale_up create_servers
  scale_up-idle [] sets s h = refl
  scale_up-idle (pool ∷ pools) sets s h = rw h.0 (scale_up-idle pools sets s h.1)

  -- If no eviction is pending and the live servers are what the pools ask for, a reconcile
  -- succeeds, sends no request and changes neither the cluster nor the server set.
  pub reconcile_servers-idle :
      (s : State) {sets : Dict ServerSet}
      → new_server_pool_set s.servers ≡ ok sets
      → lookup deletion_hint s.cluster.annotations ≡ none
      → All (IsSettledPool s.cluster.spec.workload_pools) sets
      → All (λ pool. creations pool sets ≡ pos 0) s.cluster.spec.workload_pools
      → (k : ℕ) × (reconcile_servers env network_id groups s ≡ (ok tt, record s { draws = k }))
  unfolding reconcile_servers preferred_deletion_ids clear_hint
  reconcile_servers-idle s {sets} read calm settled exact =
      let pools = s.cluster.spec.workload_pools in
      let (k, run, _) = reconcile_pools-idle pools [] sets s settled in
      (
        k,
        rw (read, calm, preferred_deletion_ids, run)
            (scale_up-idle pools sets (record s { draws = k }) exact),
      )
