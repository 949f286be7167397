-- ===== src/Handler/Clusters/Configured.antt =====
-- What the cluster handler's client.go stores of a cluster's identity and network.
use uni_compute.Base.{
  ◌≡◌, String, true, Option, List, [], ◌∷◌, All, is_some, string_eq, arith, ==_self,
}
use uni_compute.Base.Dict.{Dict, lookup, insert, lookup-insert}
use uni_compute.Base.Result.{Result}
use uni_compute.Base.State.{Comp, bind}
use uni_compute.External.Core.{Conditions}
use uni_compute.External.Catalog.{HandlerRequest, HandlerHistory, Flavor, Image}
use uni_compute.External.Handlers.{ApiEnv}
use uni_compute.Api.{ComputeCluster, ComputeClusterWorkloadPoolSpec}
use uni_compute.OpenApi.{ComputeClusterWrite, WorkloadPool}
use uni_compute.Cluster.State.{expect}
use uni_compute.Handler.Runs.{Quiet, bind-Quiet, check-Quiet, bind-Ends}
use uni_compute.Handler.Client.{regions, flavors, images, write, written}
use uni_compute.Base.Int.{pos}
use uni_compute.Handler.Generate.{
  lookup_region, lookup_flavor, generate_workload_pool, generate_workload_pools, assemble,
}
use uni_compute.Handler.Images.{choose_image}
use uni_compute.Handler.Evict.{generate_allocations, commit}
use uni_compute.Handler.Clusters.{build_metadata, generate}

module _ (env : ApiEnv) (conditions : Conditions) where
  -- The cluster names its network and its identity.
  abbrev pub IsConfigured : ComputeCluster → Type 0
  IsConfigured c =
      (is_some (lookup env.network_label c.labels) ≡ true)
      × (is_some (lookup env.identity_annotation c.annotations) ≡ true)

  -- A request that stores a cluster stores one that is configured.
  abbrev pub StoresConfigured : HandlerRequest → Type 0
  StoresConfigured (HandlerRequest.create_cluster c) = IsConfigured c
  StoresConfigured (HandlerRequest.patch_cluster c) = IsConfigured c
  StoresConfigured _ = Unit

  abbrev pub Sound : HandlerHistory → Type 0
  Sound = All StoresConfigured

  abbrev pub Trivial : {A : Type 0} → A → Type 0
  Trivial a = Unit

  -- A reading step of a `do` block whose request is `r`.
  pub asking :
      {A : Type 0} (r : HandlerRequest) (result : Result A) (h : HandlerHistory)
      → StoresConfigured r
      → Sound h
      → Quiet Sound Trivial (result, r ∷ h)
  asking r result h p s = check-Quiet Sound result (r ∷ h) (p, s)

  pub then_ :
      {A B : Type 0} (Q : A → Type 0) (m : Result A × HandlerHistory)
      (f : A → Comp HandlerHistory B)
      → Quiet Sound Q m
      → ((a : A) (t : HandlerHistory) → Sound t → Q a → Sound (f a t).1)
      → Sound (bind m f).1
  then_ Q m f q k = bind-Ends Sound Q Sound m f (λ t s. s) q k

  flavors-Sound :
      (organization region : String) (h : HandlerHistory)
      → Sound h
      → Quiet Sound (λ (_ : List Flavor). Unit {0}) (flavors env.base organization region h)
  unfolding flavors
  flavors-Sound organization region h s =
      let r = HandlerRequest.list_flavors organization region in
      asking r (expect 200 (env.flavors (r ∷ h))) h tt s

  images-Sound :
      (organization region : String) (h : HandlerHistory)
      → Sound h
      → Quiet Sound (λ (_ : List Image). Unit {0}) (images env.base organization region h)
  unfolding images
  images-Sound organization region h s =
      let r = HandlerRequest.list_images organization region in
      bind-Quiet Sound Trivial Trivial (expect 200 (env.images (r ∷ h)), r ∷ h) _
        (asking r (expect 200 (env.images (r ∷ h))) h tt s) λ _ t s _. (s, tt)

  regions-Sound :
      (organization : String) (h : HandlerHistory)
      → Sound h
      → Quiet Sound Trivial (regions env.base organization h)
  unfolding regions
  regions-Sound organization h s =
      let r = HandlerRequest.list_regions organization in
      bind-Quiet Sound Trivial Trivial (expect 200 (env.regions (r ∷ h)), r ∷ h) _
        (asking r (expect 200 (env.regions (r ∷ h))) h tt s) λ _ t s _. (s, tt)

  generate_workload_pools-Sound :
      (organization region : String) (current : Option ComputeCluster) (pools : List WorkloadPool)
      (h : HandlerHistory)
      → Sound h
      → Quiet Sound
          (λ (_ : List ComputeClusterWorkloadPoolSpec). Unit {0})
          (generate_workload_pools env.parse env.base organization region current pools h)
  unfolding generate_workload_pools generate_workload_pool
  generate_workload_pools-Sound organization region current [] h s = (s, tt)
  generate_workload_pools-Sound organization region current (pool ∷ pools) h s =
      bind-Quiet Sound Trivial Trivial
        (generate_workload_pool env.parse env.base organization region current pool h) _
        (bind-Quiet Sound Trivial Trivial (flavors env.base organization region h) _
          (flavors-Sound organization region h s)
          λ all t s _.
            bind-Quiet Sound Trivial Trivial (lookup_flavor all pool.machine.flavor_id, t) _
              (check-Quiet Sound (lookup_flavor all pool.machine.flavor_id) t s)
              λ flavor t s _.
                bind-Quiet Sound Trivial Trivial (images env.base organization region t) _
                  (images-Sound organization region t s)
                  λ offered t s _.
                    let chosen_ = choose_image current pool.name pool.machine.image offered in
                    bind-Quiet Sound Trivial Trivial (chosen_, t) _ (check-Quiet Sound chosen_ t s)
                      λ image t s _. check-Quiet Sound (assemble env.parse pool flavor image) t s)
        λ first t s _.
          bind-Quiet Sound Trivial Trivial
            (generate_workload_pools env.parse env.base organization region current pools t) _
            (generate_workload_pools-Sound organization region current pools t s)
            λ rest t s _. (s, tt)

  pub generate-Sound :
      (organization project : String) (current : Option ComputeCluster)
      (request : ComputeClusterWrite) (h : HandlerHistory)
      → Sound h
      → Quiet Sound
          (λ (_ : ComputeCluster). Unit {0})
          (generate env conditions organization project current request h)
  unfolding generate
  generate-Sound organization project current request h s =
      bind-Quiet Sound Trivial Trivial (regions env.base organization h) _
        (regions-Sound organization h s)
        λ all t s _.
          bind-Quiet Sound Trivial Trivial (lookup_region all request.region_id, t) _
            (check-Quiet Sound (lookup_region all request.region_id) t s)
            λ _ t s _.
              bind-Quiet Sound Trivial Trivial
                (generate_workload_pools env.parse env.base organization request.region_id current
                  request.workload_pools t)
                _
                (generate_workload_pools-Sound organization request.region_id current
                  request.workload_pools t s)
                λ pools t s _.
                  let built = build_metadata env conditions t request organization project in
                  bind-Quiet Sound Trivial Trivial (env.metadata.set_identity built, t) _
                    (check-Quiet Sound (env.metadata.set_identity built) t s) λ meta t s _. (s, tt)

  pub generate_allocations-Sound :
      (organization : String) (cluster : ComputeCluster) (h : HandlerHistory)
      → Sound h
      → Quiet Sound Trivial (generate_allocations env.base organization cluster h)
  unfolding generate_allocations
  generate_allocations-Sound organization cluster h s =
      bind-Quiet Sound Trivial Trivial (flavors env.base organization cluster.spec.region_id h) _
        (flavors-Sound organization cluster.spec.region_id h s)
        λ all t s _.
          let totals = commit all (pos 0) (pos 0) cluster.spec.workload_pools in
          bind-Quiet Sound Trivial Trivial (totals, t) _ (check-Quiet Sound totals t s)
            λ totals t s _. (s, tt)

  pub write-Sound :
      (r : HandlerRequest) (h : HandlerHistory)
      → StoresConfigured r
      → Sound h
      → Quiet Sound (λ (_ : Unit {0}). Unit {0}) (write env.base r h)
  unfolding write
  write-Sound r h p s = asking r (written (env.write (r ∷ h))) h p s

  pub is_some-insert :
      (key k v : String) (m : Dict String)
      → is_some (lookup key m) ≡ true
      → is_some (lookup key (insert k v m)) ≡ true
  is_some-insert key k v m h = ground (arith, lookup-insert key k v m, h)

  pub inserted : (k v : String) (m : Dict String) → is_some (lookup k (insert k v m)) ≡ true
  inserted k v m = ground (arith, lookup-insert k k v m, ==_self k)
