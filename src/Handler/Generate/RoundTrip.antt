-- ===== src/Handler/Generate/RoundTrip.antt =====
-- A cluster that is read and written back keeps its workload pools.
use uni_compute.Base.{
  ◌≡◌, refl, ◌∙◌, ap, String, Bool, ◌&&◌, Option, some, List, [], ◌∷◌, map, find, All, ◌==◌,
  string_eq, arith, ==_sound, find-passes, delete_func,
}
use uni_compute.Base.Result.{Result, ok}
use uni_compute.Base.State.{bind}
use uni_compute.External.Env.{replied}
use uni_compute.External.Core.{IPv4Prefix}
use uni_compute.External.Catalog.{Flavor, Image, HandlerRequest, HandlerHistory, HandlerEnv}
use uni_compute.Api.{ComputeCluster, ComputeClusterWorkloadPoolSpec}
use uni_compute.Api.Accessors.{get_workload_pool}
use uni_compute.OpenApi.{WorkloadPool}
use uni_compute.Handler.Client.{flavors, images, declares_software}
use uni_compute.Handler.Images.{choose_image}
use uni_compute.Handler.Images.Choice.{fits, is_current, IsAsked, choose_image_lem}
use uni_compute.Handler.Convert.{convert_image, convert_machine, convert_workload_pool}
use uni_compute.Handler.Generate.{
  assemble, lookup_flavor, generate_workload_pool, generate_workload_pools,
}
use uni_compute.Handler.Generate.Parsing.{HasReadPrefixes, assemble-convert}

IsAsked-convert_image : (pool : ComputeClusterWorkloadPoolSpec) → IsAsked (convert_image pool)
unfolding convert_image
IsAsked-convert_image pool = ground arith

-- The region still offers what the pool uses: its flavor, and its image among those that fit what
-- the pool asks for.
pub record IsOffered (cluster : ComputeCluster) (all : List Flavor) (offered : List Image)
    (pool : ComputeClusterWorkloadPoolSpec) : Type 0 where
  pub flavor : Flavor
  pub image : Image
  pub own : get_workload_pool cluster.spec.workload_pools pool.name ≡ some pool
  pub has_flavor : find (λ (f : Flavor). f.id == pool.flavor_id) all ≡ some flavor
  pub has_image :
      find (λ i. fits (convert_image pool) i && is_current (some cluster) pool.name i) offered
      ≡ some image

module _ (cluster : ComputeCluster) (all : List Flavor) (offered : List Image)
    (pool : ComputeClusterWorkloadPoolSpec) (o : IsOffered cluster all offered pool) where
  offered_flavor : o.flavor.id ≡ pool.flavor_id
  offered_flavor =
      ==_sound o.flavor.id pool.flavor_id
        (find-passes (λ (f : Flavor). f.id == pool.flavor_id) all o.has_flavor)

  current_id : (i : Image) → is_current (some cluster) pool.name i ≡ (i.id == pool.image_id)
  current_id i = rw o.own refl

  offered_image : o.image.id ≡ pool.image_id
  offered_image =
      let q : Image → Bool =
        λ i. fits (convert_image pool) i && is_current (some cluster) pool.name i in
      ==_sound o.image.id pool.image_id
        (ground (arith, find-passes q offered o.has_image, current_id o.image))

  lookup_flavor-offered : lookup_flavor all pool.flavor_id ≡ ok o.flavor
  unfolding lookup_flavor
  lookup_flavor-offered = rw (o.has_flavor, lookup_flavor) refl

  choose_image-offered :
      choose_image (some cluster) pool.name (convert_image pool) offered ≡ ok o.image
  choose_image-offered =
      choose_image_lem (some cluster) pool.name (convert_image pool) offered
        (IsAsked-convert_image pool)
      ∙ rw o.has_image refl

module _ (parse : String → Option IPv4Prefix) (env : HandlerEnv) (organization region : String)
    (cluster : ComputeCluster) (all : List Flavor) (every : List Image)
    (has_flavors : (h : HandlerHistory) → env.flavors h ≡ replied 200 all)
    (has_images : (h : HandlerHistory) → env.images h ≡ replied 200 every) where
  flavors-eq :
      (h : HandlerHistory)
      → flavors env organization region h
        ≡ (ok all, HandlerRequest.list_flavors organization region ∷ h)
  unfolding flavors
  flavors-eq h = rw (has_flavors (HandlerRequest.list_flavors organization region ∷ h)) refl

  images-eq :
      (h : HandlerHistory)
      → images env organization region h ≡ (
        ok (delete_func declares_software every),
        HandlerRequest.list_images organization region ∷ h,
      )
  unfolding images
  images-eq h = rw (has_images (HandlerRequest.list_images organization region ∷ h)) refl

  -- The two listings, the flavor and the image, and what is made of them.
  generate_workload_pool-steps :
      (pool : WorkloadPool) (h : HandlerHistory) {flavor : Flavor} {image : Image}
      → lookup_flavor all pool.machine.flavor_id ≡ ok flavor
      → choose_image
          (some cluster)
          pool.name
          pool.machine.image
          (delete_func declares_software every)
        ≡ ok image
      → generate_workload_pool parse env organization region (some cluster) pool h ≡ (
        assemble parse pool flavor image,
        HandlerRequest.list_images organization region
            ∷ HandlerRequest.list_flavors organization region
            ∷ h,
      )
  unfolding generate_workload_pool
  generate_workload_pool-steps pool h f i =
      rw (flavors-eq h, bind, f, bind, images-eq _, bind, i) refl

  generate_workload_pool-convert :
      (pool : ComputeClusterWorkloadPoolSpec) (h : HandlerHistory)
      → HasReadPrefixes parse pool
      → IsOffered cluster all (delete_func declares_software every) pool
      → generate_workload_pool parse env organization region
          (some cluster)
          (convert_workload_pool pool)
          h
        ≡ (
          ok pool,
          HandlerRequest.list_images organization region
              ∷ HandlerRequest.list_flavors organization region
              ∷ h,
        )
  unfolding convert_workload_pool convert_machine
  generate_workload_pool-convert pool h reads o =
      let offered = delete_func declares_software every in
      let sent =
        HandlerRequest.list_images organization region
        ∷ HandlerRequest.list_flavors organization region
        ∷ h in
      generate_workload_pool-steps (convert_workload_pool pool) h
        (lookup_flavor-offered cluster all offered pool o)
        (choose_image-offered cluster all offered pool o)
      ∙ ap (λ r. (r, sent))
          (assemble-convert parse pool o.flavor o.image reads
            (offered_flavor cluster all offered pool o) (offered_image cluster all offered pool o))

  -- If `ParseCIDR` reads the prefixes of the pools back from what they print as, and the region still
  -- offers what the pools use, then generating the pools from what the API shows of them gives the
  -- same pools, image and all.
  pub generate_workload_pools-convert :
      (pools : List ComputeClusterWorkloadPoolSpec) (h : HandlerHistory)
      → All (HasReadPrefixes parse) pools
      → All (IsOffered cluster all (delete_func declares_software every)) pools
      → (generate_workload_pools parse env organization region
          (some cluster)
          (map convert_workload_pool pools)
          h).0
        ≡ ok pools
  unfolding generate_workload_pools
  generate_workload_pools-convert [] h rs os = refl
  generate_workload_pools-convert (pool ∷ pools) h (r, rs) (o, os) =
      rw (generate_workload_pool-convert pool h r o, bind)
        (rest_ok _ (generate_workload_pools-convert pools _ rs os))
    where
      rest_ok :
          (m : Result (List ComputeClusterWorkloadPoolSpec) × HandlerHistory)
          → m.0 ≡ ok pools
          → (bind m (λ rest s. (ok (pool ∷ rest), s))).0 ≡ ok (pool ∷ pools)
      rest_ok (r, s) e = rw e refl
