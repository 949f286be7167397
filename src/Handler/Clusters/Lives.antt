-- ===== src/Handler/Clusters/Lives.antt =====
-- The operations of the cluster handler's client.go, one after the other, and the clusters that they
-- store.
use uni_compute.Base.{
  ◌≡◌, refl, String, Option, none, some, List, [], ◌∷◌, All, ◌<>◌, inl, inr, string_eq, ◌⊎◌, not,
  length, eqb,
}
use uni_compute.Base.Dict.{lookup}
use uni_compute.Base.Result.{Result, ok, err, panic, invalid_request, not_found}
use uni_compute.Base.Result
use uni_compute.Base.State.{bind, pure, fail}
use uni_compute.External.Core.{Conditions}
use uni_compute.External.Catalog.{HandlerRequest, HandlerHistory, Lookup, found, missing, broken}
use uni_compute.External.Handlers.{ApiEnv}
use uni_compute.Api.{ComputeCluster, ComputeClusterWorkloadPoolSpec}
use uni_compute.OpenApi.{ComputeClusterWrite}
use uni_compute.Cluster.State.{expect}
use uni_compute.Handler.Runs.{Quiet, check-Quiet, either_way}
use uni_compute.Handler.Client.{servers, write, get_cluster, delete_cluster, checked}
use uni_compute.Handler.Evict.{
  store, evicted, unless_pending, take_out, chosen, join_commas, evict_servers, evict_cluster,
  evict,
}
use uni_compute.Handler.Clusters.{create, update_current, update}
use uni_compute.Cluster.Reconcile.{deletion_hint}
use uni_compute.Cluster.Provision.{resource_api_version_label}
use uni_compute.External.Region.{ServerRead}
use uni_compute.Handler.Clusters.Configured.{
  IsConfigured, StoresConfigured, Sound, asking, then_, is_some-insert,
}
use mathlib.Core.Path.{subst}
use uni_compute.Handler.Clusters.Stored.{create-Sound, store-Sound, update_current-Sound}

-- The clusters that requests of the history store.
abbrev pub WasStored : ComputeCluster → HandlerHistory → Type 0
WasStored c [] = ⊥
WasStored c (r ∷ h) =
    (r ≡ HandlerRequest.create_cluster c) ⊎ (r ≡ HandlerRequest.patch_cluster c) ⊎ WasStored c h

module _ (env : ApiEnv) (conditions : Conditions)
    (mutate : ComputeCluster → ComputeCluster → Result ComputeCluster) where
  -- One operation that writes version 1 clusters.
  pub data Step (h : HandlerHistory) (t : HandlerHistory) : Type 0 where
    created :
        (organization project : String) (request : ComputeClusterWrite)
        → t ≡ (create env conditions organization project request h).1
        → Step h t
    updated :
        (organization project id : String) (request : ComputeClusterWrite)
        → t ≡ (update env conditions mutate organization project id request h).1
        → Step h t
    evicted_from :
        (organization project id : String) (ids : List String)
        → t ≡ (evict env.base organization project id ids h).1
        → Step h t
    deleted :
        (organization project id : String)
        → t ≡ (delete_cluster env.base organization project id h).1
        → Step h t

  -- The histories of any number of operations, one after the other.
  pub data Reach : HandlerHistory → Type 0 where
    here : Reach []
    next : {h t : HandlerHistory} → Reach h → Step h t → Reach t

  WasStored-IsConfigured :
      (c : ComputeCluster) (h : HandlerHistory)
      → WasStored c h
      → Sound env conditions h
      → IsConfigured env conditions c
  WasStored-IsConfigured c [] w s = absurd w
  WasStored-IsConfigured c (r ∷ h) (inl e) s = subst (StoresConfigured env conditions) e s.0
  WasStored-IsConfigured c (r ∷ h) (inr (inl e)) s = subst (StoresConfigured env conditions) e s.0
  WasStored-IsConfigured c (r ∷ h) (inr (inr w)) s = WasStored-IsConfigured c h w s.1

  module _
      (truthful : (h : HandlerHistory) (id : String) (c : ComputeCluster)
        → env.cluster (HandlerRequest.get_cluster id ∷ h) ≡ found c
        → WasStored c h) where
    get_cluster-Sound :
        (organization project id : String) (h : HandlerHistory)
        → Sound env conditions h
        → Quiet
            (Sound env conditions)
            (IsConfigured env conditions)
            (get_cluster env.base organization project id h)
    unfolding get_cluster
    get_cluster-Sound organization project id h s =
        reading (env.cluster (HandlerRequest.get_cluster id ∷ h)) refl
      where
        owned :
            (c : ComputeCluster) (r : Result (Unit {0}))
            → IsConfigured env conditions c
            → Quiet
                (Sound env conditions)
                (IsConfigured env conditions)
                (Result.◌>>=◌ r (λ _. ok c), HandlerRequest.get_cluster id ∷ h)
        owned c (ok _) good = ((tt, s), good)
        owned c (err e) good = (tt, s)
        owned c panic good = (tt, s)

        versioned :
            (c : ComputeCluster) (label : Option String)
            → IsConfigured env conditions c
            → Quiet (Sound env conditions) (IsConfigured env conditions) (
              elim label [
                | some _ ↦ err not_found
                | none ↦ Result.◌>>=◌ (env.owned organization project c) λ _. ok c
              ],
              HandlerRequest.get_cluster id ∷ h,
            )
        versioned c (some v) good = (tt, s)
        versioned c none good = owned c (env.owned organization project c) good

        reading :
            (answer : Lookup ComputeCluster)
            → env.cluster (HandlerRequest.get_cluster id ∷ h) ≡ answer
            → Quiet
                (Sound env conditions)
                (IsConfigured env conditions)
                (checked env.base organization project answer, HandlerRequest.get_cluster id ∷ h)
        reading missing e = (tt, s)
        reading (broken x) e = (tt, s)
        reading (found c) e =
            versioned c (lookup resource_api_version_label c.labels)
              (WasStored-IsConfigured c h (truthful h id c e) s)

    update-Sound :
        (organization project id : String) (request : ComputeClusterWrite) (h : HandlerHistory)
        → Sound env conditions h
        → Sound env conditions (update env conditions mutate organization project id request h).1
    unfolding update
    update-Sound organization project id request h s =
        then_ env conditions (IsConfigured env conditions)
          (get_cluster env.base organization project id h) _
          (get_cluster-Sound organization project id h s)
          λ current h s good.
            either_way (Sound env conditions) current.deleting (fail invalid_request)
              (update_current env conditions mutate organization project current request) h s
              (update_current-Sound env conditions mutate organization project current request h
                good s)

    evict_servers-Sound :
        (organization : String) (ids : List String) (cluster : ComputeCluster)
        (all : List ServerRead) (h : HandlerHistory)
        → IsConfigured env conditions cluster
        → Sound env conditions h
        → Sound env conditions (evict_servers env.base organization ids cluster all h).1
    unfolding evict_servers
    evict_servers-Sound organization ids cluster all h good s =
        let taken = take_out (chosen ids all) cluster.spec.workload_pools in
        either_way (Sound env conditions) (not (eqb (length (chosen ids all)) (length ids)))
          (fail invalid_request)
          (λ h. bind (taken, h) λ pools. store env.base organization (evicted ids pools cluster)) h
          s
          (then_ env conditions (λ (_ : List ComputeClusterWorkloadPoolSpec). Unit {0}) (taken, h) _
            (check-Quiet (Sound env conditions) taken h s)
            λ pools h s _.
              store-Sound env conditions organization (evicted ids pools cluster) h
                (
                  good.0,
                  is_some-insert env conditions env.identity_annotation deletion_hint
                      (join_commas ids) cluster.annotations good.1,
                )
                s)

    evict-Sound :
        (organization project id : String) (ids : List String) (h : HandlerHistory)
        → Sound env conditions h
        → Sound env conditions (evict env.base organization project id ids h).1
    unfolding evict evict_cluster servers
    evict-Sound organization project id ids h s =
        then_ env conditions (IsConfigured env conditions)
          (get_cluster env.base organization project id h) _
          (get_cluster-Sound organization project id h s)
          λ cluster h s good.
            either_way (Sound env conditions) cluster.deleting (fail invalid_request)
              (unless_pending (lookup deletion_hint cluster.annotations) (λ h.
                bind (servers env.base organization cluster h)
                  (evict_servers env.base organization ids cluster)))
              h s (waiting (lookup deletion_hint cluster.annotations) cluster h good s)
      where
        waiting :
            (hint : Option String) (cluster : ComputeCluster) (h : HandlerHistory)
            → IsConfigured env conditions cluster
            → Sound env conditions h
            → Sound env conditions
                (unless_pending hint
                  (λ h.
                    bind
                      (servers env.base organization cluster h)
                      (evict_servers env.base organization ids cluster))
                  h).1
        waiting (some _) cluster h good s = s
        waiting none cluster h good s =
            let r =
              HandlerRequest.list_servers organization
                ((env.compute_cluster_label <> "=" <> cluster.name) ∷ []) in
            then_ env conditions (λ (_ : List ServerRead). Unit {0})
              (expect 200 (env.servers (r ∷ h)), r ∷ h) _
              (asking env conditions r (expect 200 (env.servers (r ∷ h))) h tt s)
              λ all h s _. evict_servers-Sound organization ids cluster all h good s

    delete-Sound :
        (organization project id : String) (h : HandlerHistory)
        → Sound env conditions h
        → Sound env conditions (delete_cluster env.base organization project id h).1
    unfolding delete_cluster write
    delete-Sound organization project id h s =
        then_ env conditions (IsConfigured env conditions)
          (get_cluster env.base organization project id h) _
          (get_cluster-Sound organization project id h s)
          λ cluster h s good.
            either_way (Sound env conditions) cluster.deleting (pure tt)
              (write env.base (HandlerRequest.delete_cluster cluster.name)) h s (tt, s)

    -- After any sequence of creations, updates, evictions and deletions of version 1 clusters, every
    -- cluster that was sent to be stored carries the label of its network and the annotation of its
    -- identity, if the Kubernetes API only answers with clusters that were sent to be stored.
    pub Reach-StoresConfigured :
        {h : HandlerHistory} → Reach h → All (StoresConfigured env conditions) h
    Reach-StoresConfigured here = tt
    Reach-StoresConfigured (next {h = h} r (created organization project request e)) =
        rw e (create-Sound env conditions organization project request h (Reach-StoresConfigured r))
    Reach-StoresConfigured (next {h = h} r (updated organization project id request e)) =
        rw e (update-Sound organization project id request h (Reach-StoresConfigured r))
    Reach-StoresConfigured (next {h = h} r (evicted_from organization project id ids e)) =
        rw e (evict-Sound organization project id ids h (Reach-StoresConfigured r))
    Reach-StoresConfigured (next {h = h} r (deleted organization project id e)) =
        rw e (delete-Sound organization project id h (Reach-StoresConfigured r))
