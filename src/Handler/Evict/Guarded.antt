-- ===== src/Handler/Evict/Guarded.antt =====
-- Nothing is written unless an eviction passes its checks.
use uni_compute.Base.{
  ◌≡◌, refl, ◌∙◌, ◌⊎◌, inl, inr, String, Bool, true, false, none, some, Option, List, [], ◌∷◌, ◌<>◌,
  count, length, All, eqb, if◌then◌else◌, Bool-cases, arith,
}
use uni_compute.Base.Dict.{lookup}
use uni_compute.Base.Result.{Result, ok, err, panic, invalid_request}
use uni_compute.Base.State.{Comp, bind, fail, ◌>>=◌}
use uni_compute.External.Env.{replied}
use uni_compute.External.Region.{ServerRead}
use uni_compute.External.Catalog.{HandlerRequest, HandlerHistory, HandlerEnv, found}
use uni_compute.Api.{ComputeCluster, ComputeClusterWorkloadPoolSpec}
use uni_compute.Cluster.Provision.{resource_api_version_label}
use uni_compute.Cluster.Reconcile.{deletion_hint}
use uni_compute.Handler.Client.{servers, get_cluster}
use uni_compute.Handler.Evict.{
  chosen, evicted, unless_pending, take_out, store, evict_servers, evict_cluster, evict,
}
use uni_compute.Handler.Evict.Pools.{BelongsTo, take_out-BelongsTo}
use uni_compute.Handler.Evict.Chosen.{is_evicted, length-chosen, All-chosen}

-- A request that changes the quota or the cluster.
abbrev pub is_write : HandlerRequest → Bool
is_write (HandlerRequest.update_allocations _ _) = true
is_write (HandlerRequest.patch_cluster _) = true
is_write _ = false

module _ (env : HandlerEnv) (organization : String) where
  -- The query for the servers of a cluster.
  abbrev pub query : ComputeCluster → HandlerRequest
  query cluster =
      HandlerRequest.list_servers organization
        ((env.compute_cluster_label <> "=" <> cluster.name) ∷ [])

  -- What an eviction that was asked for at `h` checks of a cluster and its servers. The cluster that Kubernetes answers with is a
  -- version 1 cluster of the project, which is not being deleted and has no eviction pending; of the
  -- servers that the region service lists for it, as many are named and not being deleted as IDs were
  -- given; and each of these belongs to a pool.
  pub record Passes (project id : String) (ids : List String) (h : HandlerHistory)
      (cluster : ComputeCluster) (all : List ServerRead) : Type 0 where
    pub is_read : env.cluster (HandlerRequest.get_cluster id ∷ h) ≡ found cluster
    pub is_version_1 : lookup resource_api_version_label cluster.labels ≡ none
    pub is_owned : env.owned organization project cluster ≡ ok tt
    pub live : cluster.deleting ≡ false
    pub calm : lookup deletion_hint cluster.annotations ≡ none
    pub are_listed :
        env.servers (query cluster ∷ HandlerRequest.get_cluster id ∷ h) ≡ replied 200 all
    pub matched : count (is_evicted ids) all ≡ length ids
    pub belong :
        All
          (λ server. (is_evicted ids server ≡ false) ⊎ BelongsTo cluster.spec.workload_pools server)
          all

  pub get_cluster-eq-ok :
      (project id : String) (h : HandlerHistory) {cluster : ComputeCluster} {t : HandlerHistory}
      → get_cluster env organization project id h ≡ (ok cluster, t)
      → (env.cluster (HandlerRequest.get_cluster id ∷ h) ≡ found cluster)
        × (lookup resource_api_version_label cluster.labels ≡ none)
        × (env.owned organization project cluster ≡ ok tt)
        × (t ≡ HandlerRequest.get_cluster id ∷ h)
  unfolding get_cluster
  get_cluster-eq-ok project id h e = ground arith

  pub servers-eq-ok :
      (cluster : ComputeCluster) (h : HandlerHistory) {all : List ServerRead} {t : HandlerHistory}
      → servers env organization cluster h ≡ (ok all, t)
      → (env.servers (query cluster ∷ h) ≡ replied 200 all) × (t ≡ query cluster ∷ h)
  unfolding servers
  servers-eq-ok cluster h e = ground arith

  servers-quiet :
      (cluster : ComputeCluster) (h : HandlerHistory)
      → count is_write (servers env organization cluster h).1 ≡ count is_write h
  unfolding servers
  servers-quiet cluster h = ground arith

  get_cluster-quiet :
      (project id : String) (h : HandlerHistory)
      → count is_write (get_cluster env organization project id h).1 ≡ count is_write h
  unfolding get_cluster
  get_cluster-quiet project id h = ground arith

  -- The reads and the checks of an eviction, put together.
  pub Passes-steps :
      (project id : String) (ids : List String) (h : HandlerHistory) {cluster : ComputeCluster}
      {all : List ServerRead} {pools : List ComputeClusterWorkloadPoolSpec} {u v : HandlerHistory}
      → get_cluster env organization project id h ≡ (ok cluster, u)
      → cluster.deleting ≡ false
      → lookup deletion_hint cluster.annotations ≡ none
      → servers env organization cluster u ≡ (ok all, v)
      → eqb (length (chosen ids all)) (length ids) ≡ true
      → take_out (chosen ids all) cluster.spec.workload_pools ≡ ok pools
      → Passes project id ids h cluster all
  Passes-steps project id ids h {cluster} {all} {pools} {u} {v} read live calm listed matched
        taken =
      let (is_read, is_version_1, is_owned, sent) = get_cluster-eq-ok project id h read in
      let (are_listed, asked) = servers-eq-ok cluster u listed in
      record {
        is_read = is_read;
        is_version_1 = is_version_1;
        is_owned = is_owned;
        live = live;
        calm = calm;
        are_listed = rw sent at are_listed;
        matched = ground (arith, length-chosen ids all);
        belong =
            All-chosen ids (BelongsTo cluster.spec.workload_pools) all
              (take_out-BelongsTo (chosen ids all) cluster.spec.workload_pools taken);
      }

module _ (env : HandlerEnv) (organization project id : String) (ids : List String)
    (start : HandlerHistory) where
  -- From `h`, nothing is written up to `t`, or the checks are passed.
  Guarded : HandlerHistory → HandlerHistory → Type 0
  Guarded h t =
      (count is_write t ≡ count is_write h)
      ⊎ ((cluster : ComputeCluster) × (all : List ServerRead) × Passes env organization project id
            ids start cluster all)

  bind-Guarded :
      {A B : Type 0} (h : HandlerHistory) (m : Result A × HandlerHistory)
      (f : A → Comp HandlerHistory B)
      → count is_write m.1 ≡ count is_write h
      → ((a : A) → m ≡ (ok a, m.1) → Guarded m.1 (f a m.1).1)
      → Guarded h (bind m f).1
  unfolding Guarded
  bind-Guarded h (ok a, t) f e k = elim (k a refl) [ inl same ↦ inl (same ∙ e) | inr p ↦ inr p ]
  bind-Guarded h (err x, t) f e k = inl e
  bind-Guarded h (panic, t) f e k = inl e

  module _ {cluster : ComputeCluster} {u : HandlerHistory}
      (read : get_cluster env organization project id start ≡ (ok cluster, u)) where
    evict_servers-Guarded :
        (all : List ServerRead) {v : HandlerHistory}
        → cluster.deleting ≡ false
        → lookup deletion_hint cluster.annotations ≡ none
        → servers env organization cluster u ≡ (ok all, v)
        → Guarded v (evict_servers env organization ids cluster all v).1
    unfolding evict_servers Guarded
    evict_servers-Guarded all {v} live calm listed =
        elim (Bool-cases (eqb (length (chosen ids all)) (length ids))) [
          | inr e ↦ rw e (inl refl)
          | inl e ↦ rw e (taking (take_out (chosen ids all) cluster.spec.workload_pools) refl e)
        ]
      where
        taking :
            (r : Result (List ComputeClusterWorkloadPoolSpec))
            → take_out (chosen ids all) cluster.spec.workload_pools ≡ r
            → eqb (length (chosen ids all)) (length ids) ≡ true
            → Guarded v
                (bind (r, v) (λ pools. store env organization (evicted ids pools cluster))).1
        taking (err x) t e = inl refl
        taking panic t e = inl refl
        taking (ok pools) t e = inr (
          cluster,
          all,
          Passes-steps env organization project id ids start read live calm listed e t,
        )

    evict_cluster-Guarded : Guarded u (evict_cluster env organization ids cluster u).1
    unfolding evict_cluster Guarded
    evict_cluster-Guarded = by_deletion cluster.deleting refl
      where
        by_hint :
            (hint : Option String)
            → cluster.deleting ≡ false
            → lookup deletion_hint cluster.annotations ≡ hint
            → Guarded u
                (unless_pending hint
                  (servers env organization cluster >>= evict_servers env organization ids cluster)
                  u).1
        by_hint (some hint) live e = inl refl
        by_hint none live e =
            bind-Guarded u (servers env organization cluster u)
              (evict_servers env organization ids cluster)
              (servers-quiet env organization cluster u)
              λ all listed. evict_servers-Guarded all live e listed

        by_deletion :
            (deleting : Bool)
            → cluster.deleting ≡ deleting
            → Guarded u
                ((if deleting
                    then fail invalid_request
                    else unless_pending (lookup deletion_hint cluster.annotations) (
                        servers env organization cluster
                        >>= evict_servers env organization ids cluster))
                  u).1
        by_deletion true e = inl refl
        by_deletion false e = by_hint (lookup deletion_hint cluster.annotations) e refl

  -- Whatever the services answer, an eviction changes the quota or the cluster only if what it reads
  -- passes all its checks: the cluster is a version 1 cluster of the project, not being deleted, with
  -- no eviction pending; as many of its servers as IDs were given are named and not being deleted;
  -- and each of these belongs to one of its pools.
  pub evict-Passes :
      (count is_write (evict env organization project id ids start).1 ≡ count is_write start)
      ⊎ ((cluster : ComputeCluster) × (all : List ServerRead) × Passes env organization project id
            ids start cluster all)
  unfolding evict Guarded
  evict-Passes =
      bind-Guarded start (get_cluster env organization project id start) _
        (get_cluster-quiet env organization project id start)
        λ cluster read. evict_cluster-Guarded {cluster = cluster} read
