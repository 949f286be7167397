-- ===== src/Handler/Evict/Outcome.antt =====
-- How an eviction ends.
use uni_compute.Base.{
  Bool, true, false, if◌then◌else◌, none, some, Option, ◌≡◌, refl, ◌∙◌, ap, inl, inr, String, List,
  [], ◌∷◌, map, length, All, Distinct, eqb, Bool-cases, arith,
}
use uni_compute.Base.Dict.{lookup, insert}
use uni_compute.Base.Int.{pos}
use uni_compute.Base.Result.{Result, ok, err, invalid_request}
use uni_compute.Base.State.{bind-eq-ok, fail, ◌>>=◌}
use uni_compute.External.Env.{replied}
use uni_compute.External.Region.{ServerRead}
use uni_compute.External.Catalog.{
  Flavor, Allocation, HandlerRequest, HandlerHistory, HandlerEnv, found,
}
use uni_compute.Api.{ComputeCluster, ComputeClusterWorkloadPoolSpec}
use uni_compute.Cluster.Reconcile.{deletion_hint}
use uni_compute.Handler.Client.{flavors, servers, write, get_cluster}
use uni_compute.Handler.Evict.{
  join_commas, chosen, commit, evicted, unless_pending, take_out, generate_allocations, store,
  evict_servers, evict_cluster, evict,
}
use uni_compute.Handler.Evict.Pools.{names_of, BelongsTo, take_out_lem}
use uni_compute.Handler.Evict.Chosen.{
  less, sum_from, gpus, commit-ok, IsPriced, commit-IsPriced, length-chosen, reduced-chosen,
  chosen-All,
}
use uni_compute.Handler.Evict.Guarded.{
  query, Passes, Passes-steps, get_cluster-eq-ok, servers-eq-ok,
}

-- The cluster with the IDs in its deletion hint and without the evicted servers in its pools.
abbrev pub without_evicted : List String → List ServerRead → ComputeCluster → ComputeCluster
without_evicted ids all cluster = record cluster {
  annotations = insert deletion_hint (join_commas ids) cluster.annotations;
  spec = record (cluster.spec) { workload_pools = map (less ids all) cluster.spec.workload_pools };
}

-- The quota of a cluster: itself, its servers and their GPUs.
abbrev pub quota : List Flavor → ComputeCluster → List Allocation
quota all cluster =
    record { kind = "clusters"; committed = pos 1 }
    ∷ record {
      kind = "servers";
      committed = sum_from (λ pool. pool.replicas) (pos 0) cluster.spec.workload_pools;
    }
    ∷ record { kind = "gpus"; committed = sum_from (gpus all) (pos 0) cluster.spec.workload_pools }
    ∷ []

module _ (env : HandlerEnv) (organization : String) where
  -- The query for the flavors of the cluster's region.
  abbrev pub catalog : ComputeCluster → HandlerRequest
  catalog cluster = HandlerRequest.list_flavors organization cluster.spec.region_id

  -- What an eviction that succeeds has sent after `h`: it has read the cluster, the servers and the
  -- flavors, which passed its checks, and it has then set the quota of the cluster without the
  -- evicted servers, and stored that cluster.
  pub record Evicts (project id : String) (ids : List String) (h t : HandlerHistory) : Type 0 where
    pub cluster : ComputeCluster
    pub all : List ServerRead
    pub passes : Passes env organization project id ids h cluster all
    pub all_flavors : List Flavor
    pub has_flavors :
        env.flavors
          (catalog cluster ∷ query env organization cluster ∷ HandlerRequest.get_cluster id ∷ h)
        ≡ replied 200 all_flavors
    pub sent :
        t
        ≡ HandlerRequest.patch_cluster (without_evicted ids all cluster)
          ∷ HandlerRequest.update_allocations
              (without_evicted ids all cluster)
              (quota all_flavors (without_evicted ids all cluster))
          ∷ catalog cluster
          ∷ query env organization cluster
          ∷ HandlerRequest.get_cluster id
          ∷ h

  refused :
      (h : HandlerHistory) {t : HandlerHistory}
      → Path (Result (Unit {0}) × HandlerHistory) (err invalid_request, h) (ok tt, t)
      → ⊥
  refused h e = cc

  flavors-eq-ok :
      (cluster : ComputeCluster) (h : HandlerHistory) {all : List Flavor} {t : HandlerHistory}
      → flavors env organization cluster.spec.region_id h ≡ (ok all, t)
      → (env.flavors (catalog cluster ∷ h) ≡ replied 200 all) × (t ≡ catalog cluster ∷ h)
  unfolding flavors
  flavors-eq-ok cluster h e = ground arith

  write-eq-ok :
      (request : HandlerRequest) (h : HandlerHistory) {t : HandlerHistory}
      → write env request h ≡ (ok tt, t)
      → t ≡ request ∷ h
  unfolding write
  write-eq-ok request h e = ground arith

  generate_allocations-eq-ok :
      (updated : ComputeCluster) (h : HandlerHistory) {allocations : List Allocation}
      {t : HandlerHistory}
      → generate_allocations env organization updated h ≡ (ok allocations, t)
      → (all : List Flavor) × (env.flavors (catalog updated ∷ h) ≡ replied 200 all)
        × (allocations ≡ quota all updated)
        × (t ≡ catalog updated ∷ h)
  unfolding generate_allocations
  generate_allocations-eq-ok updated h e =
      let (all, listed, e₁) = bind-eq-ok (flavors env organization updated.spec.region_id h) _ e in
      let ((a, b), committed, e₂) =
        bind-eq-ok (commit all (pos 0) (pos 0) updated.spec.workload_pools, _) _ e₁ in
      let (has_flavors, sent) = flavors-eq-ok updated h listed in
      let (servers, held) =
        commit-ok all updated.spec.workload_pools (pos 0) (pos 0) (ap (λ p. p.0) committed) in
      (all, has_flavors, ground arith, ground arith)

  store-eq-ok :
      (updated : ComputeCluster) (h : HandlerHistory) {t : HandlerHistory}
      → store env organization updated h ≡ (ok tt, t)
      → (all : List Flavor) × (env.flavors (catalog updated ∷ h) ≡ replied 200 all)
        × (t
            ≡ HandlerRequest.patch_cluster updated
              ∷ HandlerRequest.update_allocations updated (quota all updated)
              ∷ catalog updated
              ∷ h)
  unfolding store
  store-eq-ok updated h e =
      let (allocations, generated, e₁) =
        bind-eq-ok (generate_allocations env organization updated h) _ e in
      let (all, has_flavors, same, sent) = generate_allocations-eq-ok updated h generated in
      let request = HandlerRequest.update_allocations updated allocations in
      let (_, written, e₂) = bind-eq-ok (write env request _) _ e₁ in
      let first = write-eq-ok request _ written in
      let last = write-eq-ok (HandlerRequest.patch_cluster updated) _ e₂ in
      (all, has_flavors, ground arith)

  evict_servers-eq-ok :
      (ids : List String) (cluster : ComputeCluster) (all : List ServerRead) (h : HandlerHistory)
      {t : HandlerHistory}
      → evict_servers env organization ids cluster all h ≡ (ok tt, t)
      → (eqb (length (chosen ids all)) (length ids) ≡ true)
        × (pools : List ComputeClusterWorkloadPoolSpec) × (take_out
              (chosen ids all)
              cluster.spec.workload_pools
            ≡ ok pools)
        × (store env organization (evicted ids pools cluster) h ≡ (ok tt, t))
  unfolding evict_servers
  evict_servers-eq-ok ids cluster all h e =
      elim (Bool-cases (eqb (length (chosen ids all)) (length ids))) [
        | inr differ ↦ absurd (refused h (rw differ at e))
        | inl same ↦
            let (pools, taken, stored) =
              bind-eq-ok (take_out (chosen ids all) cluster.spec.workload_pools, h) _
                (rw same at e) in
            (same, pools, ap (λ p. p.0) taken, stored)
      ]

  -- What an eviction goes on to do once the cluster is known, if it succeeds.
  Goes : List String → ComputeCluster → HandlerHistory → HandlerHistory → Type 0
  Goes ids cluster h t =
      (cluster.deleting ≡ false)
      × (lookup deletion_hint cluster.annotations ≡ none)
      × (all : List ServerRead) × (u : HandlerHistory) × (servers env organization cluster h
          ≡ (ok all, u))
      × (evict_servers env organization ids cluster all u ≡ (ok tt, t))

  evict_cluster-eq-ok :
      (ids : List String) (cluster : ComputeCluster) (h : HandlerHistory) {t : HandlerHistory}
      → evict_cluster env organization ids cluster h ≡ (ok tt, t)
      → Goes ids cluster h t
  unfolding evict_cluster Goes
  evict_cluster-eq-ok ids cluster h {t} e = by_deletion cluster.deleting refl e
    where
      by_hint :
          (hint : Option String)
          → cluster.deleting ≡ false
          → lookup deletion_hint cluster.annotations ≡ hint
          → unless_pending hint
              (servers env organization cluster >>= evict_servers env organization ids cluster)
              h
            ≡ (ok tt, t)
          → Goes ids cluster h t
      by_hint (some hint) live same e' = absurd (refused h e')
      by_hint none live same e' =
          let (all, listed, e₁) =
            bind-eq-ok (servers env organization cluster h)
              (evict_servers env organization ids cluster) e' in
          (live, same, all, _, listed, e₁)

      by_deletion :
          (deleting : Bool)
          → cluster.deleting ≡ deleting
          → (if deleting
                then fail invalid_request
                else unless_pending (lookup deletion_hint cluster.annotations) (
                    servers env organization cluster
                    >>= evict_servers env organization ids cluster))
              h
            ≡ (ok tt, t)
          → Goes ids cluster h t
      by_deletion true same e' = absurd (refused h e')
      by_deletion false same e' = by_hint (lookup deletion_hint cluster.annotations) same refl e'

  evicted-less :
      (ids : List String) (cluster : ComputeCluster) (all : List ServerRead)
      → Distinct (names_of cluster.spec.workload_pools)
      → All (BelongsTo cluster.spec.workload_pools) (chosen ids all)
      → take_out (chosen ids all) cluster.spec.workload_pools
        ≡ ok (map (less ids all) cluster.spec.workload_pools)
  evicted-less ids cluster all distinct belong =
      take_out_lem (chosen ids all) cluster.spec.workload_pools distinct belong
      ∙ ap ok (reduced-chosen ids all cluster.spec.workload_pools)

  -- If the pools of a cluster that Kubernetes stores have distinct names, an eviction that succeeds
  -- has passed its checks on what the services answered, and has sent in this order: its reads; the
  -- quota of the cluster without the evicted servers, which counts one cluster, the servers of its
  -- pools and their GPUs; and that cluster, in which each pool has lost as many replicas as evicted
  -- servers carry its tag, and whose hint holds the IDs.
  pub evict-Evicts :
      (project id : String) (ids : List String) (h : HandlerHistory) {t : HandlerHistory}
      → ((u : HandlerHistory) (c : ComputeCluster)
          → env.cluster u ≡ found c
          → Distinct (names_of c.spec.workload_pools))
      → evict env organization project id ids h ≡ (ok tt, t)
      → Evicts project id ids h t
  unfolding evict Goes
  evict-Evicts project id ids h {t} distinct e =
      let (cluster, read, e₁) = bind-eq-ok (get_cluster env organization project id h) _ e in
      let (live, calm, all, u, listed, e₂) = evict_cluster-eq-ok ids cluster _ e₁ in
      let (matched, pools, taken, stored) = evict_servers-eq-ok ids cluster all u e₂ in
      let passes =
        Passes-steps env organization project id ids h read live calm listed matched taken in
      let (is_read, _, _, asked) = get_cluster-eq-ok env organization project id h read in
      let (_, then_asked) = servers-eq-ok env organization cluster _ listed in
      let fewer =
        evicted-less ids cluster all (distinct _ cluster is_read)
          (chosen-All ids (BelongsTo cluster.spec.workload_pools) all passes.belong) in
      let same : pools ≡ map (less ids all) cluster.spec.workload_pools = cc in
      let before = then_asked ∙ ap (λ v. query env organization cluster ∷ v) asked in
      let (all_flavors, has_flavors, sent) =
        store-eq-ok (without_evicted ids all cluster) _ (rw (same, before) at stored) in
      record {
        cluster = cluster;
        all = all;
        passes = passes;
        all_flavors = all_flavors;
        has_flavors = has_flavors;
        sent = sent;
      }

  read-Passes :
      (project id : String) (ids : List String) (h : HandlerHistory) {cluster : ComputeCluster}
      {all : List ServerRead}
      → Passes env organization project id ids h cluster all
      → get_cluster env organization project id h ≡ (ok cluster, HandlerRequest.get_cluster id ∷ h)
  unfolding get_cluster
  read-Passes project id ids h p = ground (arith, p.is_read, p.is_version_1, p.is_owned)

  listed-Passes :
      (project id : String) (ids : List String) (h : HandlerHistory) {cluster : ComputeCluster}
      {all : List ServerRead}
      → Passes env organization project id ids h cluster all
      → servers env organization cluster (HandlerRequest.get_cluster id ∷ h)
        ≡ (ok all, query env organization cluster ∷ HandlerRequest.get_cluster id ∷ h)
  unfolding servers
  listed-Passes project id ids h p = rw p.are_listed refl

  evict_cluster-servers :
      (ids : List String) (cluster : ComputeCluster) (h : HandlerHistory) {u : HandlerHistory}
      {all : List ServerRead}
      → cluster.deleting ≡ false
      → lookup deletion_hint cluster.annotations ≡ none
      → servers env organization cluster h ≡ (ok all, u)
      → evict_cluster env organization ids cluster h
        ≡ evict_servers env organization ids cluster all u
  unfolding evict_cluster
  evict_cluster-servers ids cluster h live calm listed = simp (live, calm, listed)

  evict_servers-store :
      (ids : List String) (cluster : ComputeCluster) (all : List ServerRead) (h : HandlerHistory)
      → eqb (length (chosen ids all)) (length ids) ≡ true
      → take_out (chosen ids all) cluster.spec.workload_pools
        ≡ ok (map (less ids all) cluster.spec.workload_pools)
      → evict_servers env organization ids cluster all h
        ≡ store env organization (without_evicted ids all cluster) h
  unfolding evict_servers
  evict_servers-store ids cluster all h matched taken = rw (matched, taken) refl

  store-ok :
      (updated : ComputeCluster) (h : HandlerHistory) (all : List Flavor)
      → env.flavors (catalog updated ∷ h) ≡ replied 200 all
      → All (IsPriced all) updated.spec.workload_pools
      → ((u : HandlerHistory) → env.write u ≡ none)
      → (store env organization updated h).0 ≡ ok tt
  unfolding store generate_allocations flavors write
  store-ok updated h all listed priced accepts =
      let (totals, committed) =
        commit-IsPriced all updated.spec.workload_pools (pos 0) (pos 0) priced in
      rw (listed, committed, accepts _, accepts _) refl

  IsPriced-less :
      (ids : List String) (all : List ServerRead) (every : List Flavor)
      (pools : List ComputeClusterWorkloadPoolSpec)
      → All (IsPriced every) pools
      → All (IsPriced every) (map (less ids all) pools)
  IsPriced-less ids all every [] h = tt
  IsPriced-less ids all every (pool ∷ pools) (p, h) = (p, IsPriced-less ids all every pools h)

  -- An eviction whose checks pass succeeds if the pools have distinct names, the region offers a
  -- flavor for each of them, and no write is refused.
  pub evict_succeeds :
      (project id : String) (ids : List String) (h : HandlerHistory) {cluster : ComputeCluster}
      {all : List ServerRead} (every : List Flavor)
      → Passes env organization project id ids h cluster all
      → Distinct (names_of cluster.spec.workload_pools)
      → env.flavors
          (catalog cluster ∷ query env organization cluster ∷ HandlerRequest.get_cluster id ∷ h)
        ≡ replied 200 every
      → All (IsPriced every) cluster.spec.workload_pools
      → ((u : HandlerHistory) → env.write u ≡ none)
      → (evict env organization project id ids h).0 ≡ ok tt
  unfolding evict
  evict_succeeds project id ids h {cluster} {all} every p distinct listed priced accepts =
      let u = query env organization cluster ∷ HandlerRequest.get_cluster id ∷ h in
      let fewer =
        evicted-less ids cluster all distinct
          (chosen-All ids (BelongsTo cluster.spec.workload_pools) all p.belong) in
      let run =
        evict_cluster-servers ids cluster _ p.live p.calm (listed-Passes project id ids h p)
        ∙ evict_servers-store ids cluster all u (ground (arith, p.matched, length-chosen ids all))
            fewer in
      rw (read-Passes project id ids h p, ◌>>=◌, run)
        (store-ok (without_evicted ids all cluster) u every listed
          (IsPriced-less ids all every cluster.spec.workload_pools priced) accepts)
