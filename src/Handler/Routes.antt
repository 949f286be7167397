-- ===== src/Handler/Routes.antt =====
-- handler.go, with options.go: the routes of version 1. An error stands for the answer that
-- `HandleError` writes. That regions are read on behalf of the user, and by which methods tokens are
-- presented, is not modelled.
pub mod V2
pub mod Guards
pub mod Listing
use uni_compute.Base.{ℕ, ◌/◌, String, Bool, true, false, Option, List, [], ◌∷◌, delete_func}
use uni_compute.Base.Result.{Result, ok, err, panic}
use uni_compute.Base.State.{Comp, ◌>>=◌, ◌>>◌, pure, lift}
use uni_compute.External.Core.{Conditions}
use uni_compute.External.Catalog.{Flavor, Image, RegionRead, ServerAction}
use uni_compute.External.Handlers.{ApiEnv, Operation}
use uni_compute.Api.{ComputeCluster}
use uni_compute.OpenApi.{ComputeClusterRead, ComputeClusterWrite, InstanceRead, ClusterV2Read}
use uni_compute.Handler.Client.{Handler, regions, flavors, images, delete_cluster, act_on_machine}
use uni_compute.Handler.Evict.{evict}
use uni_compute.Handler.ClustersV2.{clusters_endpoint}
use uni_compute.Handler.Clusters.{
  list_clusters, show_cluster, create, update, create_console_session, get_console_output,
}

-- The body of a response.
pub data Content : Type 0 where
  nothing : Content
  some_resource : String → List String → List String → List String → Content
  some_regions : List RegionRead → Content
  some_flavors : List Flavor → Content
  some_images : List Image → Content
  one_image : Image → Content
  some_clusters : List ComputeClusterRead → Content
  one_cluster : ComputeClusterRead → Content
  some_instances : List InstanceRead → Content
  one_instance : InstanceRead → Content
  some_clusters_v2 : List ClusterV2Read → Content
  one_cluster_v2 : ClusterV2Read → Content
  some_text : String → Content

-- A value of the header `Cache-Control`, with the seconds of a maximal age.
pub data CacheControl : Type 0 where
  no_cache private : CacheControl
  max_age : ℕ → CacheControl

pub record Response : Type 0 where
  pub status : ℕ
  pub cache_control : List CacheControl
  pub content : Content

-- `setUncacheable` and `WriteJSONResponse`
abbrev pub uncacheable : ℕ → Content → Response
uncacheable status content = record {
  status = status;
  cache_control = CacheControl.no_cache ∷ [];
  content = content;
}

-- `setCacheable`, of a duration in nanoseconds.
unfoldable pub cacheable : ℕ → List CacheControl
cacheable age = CacheControl.max_age (age / 1000000000) ∷ CacheControl.private ∷ []

abbrev pub plain : ℕ → Content → Response
plain status content = record { status = status; cache_control = []; content = content }

-- `GetWellKnownOpenidProtectedResource`, with the host of the request and that of the identity
-- service.
unfoldable pub get_openid_protected_resource : String → Result String → ℕ → Handler Response
unfolding cacheable
get_openid_protected_resource host issuer age = do
  server ← lift issuer
  pure (record {
    status = 200;
    cache_control = cacheable age;
    content =
        Content.some_resource host (server ∷ []) ("openid" ∷ "email" ∷ "profile" ∷ [])
          ("header" ∷ []);
  })

module _ (env : ApiEnv) (conditions : Conditions) where
  -- `GetApiV1OrganizationsOrganizationIDRegions`
  unfoldable pub get_regions : String → Handler Response
  get_regions organization = do
    lift (env.allow_organization "compute:regions" Operation.read organization)
    result ← regions env.base organization
    pure (plain 200 (Content.some_regions result))

  -- `GetApiV1OrganizationsOrganizationIDRegionsRegionIDFlavors`
  unfoldable pub get_flavors : String → String → Handler Response
  get_flavors organization region = do
    lift (env.allow_organization "compute:flavors" Operation.read organization)
    result ← flavors env.base organization region
    pure (plain 200 (Content.some_flavors result))

  -- `GetApiV1OrganizationsOrganizationIDRegionsRegionIDImages`
  unfoldable pub get_images : String → String → Handler Response
  get_images organization region = do
    lift (env.allow_organization "compute:images" Operation.read organization)
    result ← images env.base organization region
    pure (plain 200 (Content.some_images result))

  abbrev pub allow_clusters : Operation → String → String → Result (Unit {0})
  allow_clusters = env.allow clusters_endpoint

  -- Does the listing leave the cluster out?
  abbrev pub is_forbidden : String → ComputeClusterRead → Bool
  is_forbidden organization resource =
      elim (allow_clusters Operation.read organization resource.project_id) [
        | ok _ ↦ false
        | err _ ↦ true
        | panic ↦ true
      ]

  -- `GetApiV1OrganizationsOrganizationIDClusters`
  unfoldable pub get_clusters : String → Option (List String) → Handler Response
  get_clusters organization tag = do
    result ← list_clusters env conditions organization tag
    pure (uncacheable 200 (Content.some_clusters (delete_func (is_forbidden organization) result)))

  -- `PostApiV1OrganizationsOrganizationIDProjectsProjectIDClusters`; the last argument is what
  -- `ReadJSONBody` makes of the body, here and below.
  unfoldable pub post_clusters : String → String → Result ComputeClusterWrite → Handler Response
  post_clusters organization project body = do
    lift (allow_clusters Operation.create organization project)
    request ← lift body
    result ← create env conditions organization project request
    pure (uncacheable 202 (Content.one_cluster result))

  -- `DeleteApiV1OrganizationsOrganizationIDProjectsProjectIDClustersClusterID`
  unfoldable pub delete_cluster_route : String → String → String → Handler Response
  delete_cluster_route organization project cluster = do
    lift (allow_clusters Operation.delete organization project)
    delete_cluster env.base organization project cluster
    pure (uncacheable 202 Content.nothing)

  -- `GetApiV1OrganizationsOrganizationIDProjectsProjectIDClustersClusterID`
  unfoldable pub get_cluster_route : String → String → String → Handler Response
  get_cluster_route organization project cluster = do
    result ← show_cluster env conditions organization project cluster
    lift (allow_clusters Operation.read organization result.project_id)
    pure (uncacheable 200 (Content.one_cluster result))

  -- `PutApiV1OrganizationsOrganizationIDProjectsProjectIDClustersClusterID`
  unfoldable pub put_cluster :
      (ComputeCluster → ComputeCluster → Result ComputeCluster)
      → String
      → String
      → String
      → Result ComputeClusterWrite
      → Handler Response
  put_cluster mutate organization project cluster body = do
    lift (allow_clusters Operation.update organization project)
    request ← lift body
    update env conditions mutate organization project cluster request
    pure (uncacheable 202 Content.nothing)

  -- `PostApiV1OrganizationsOrganizationIDProjectsProjectIDClustersClusterIDEvict`
  unfoldable pub post_evict : String → String → String → Result (List String) → Handler Response
  post_evict organization project cluster body = do
    lift (allow_clusters Operation.update organization project)
    ids ← lift body
    evict env.base organization project cluster ids
    pure (uncacheable 202 Content.nothing)

  -- `GetApiV1OrganizationsOrganizationIDProjectsProjectIDClustersClusterIDMachinesMachineIDConsoleoutput`
  unfoldable pub get_console_output_route :
      String → String → String → String → Option ℕ → Handler Response
  get_console_output_route organization project cluster machine length = do
    lift (allow_clusters Operation.read organization project)
    result ← get_console_output env conditions organization project cluster machine length
    pure (uncacheable 200 (Content.some_text result))

  -- `GetApiV1OrganizationsOrganizationIDProjectsProjectIDClustersClusterIDMachinesMachineIDConsolesessions`
  unfoldable pub get_console_sessions : String → String → String → String → Handler Response
  get_console_sessions organization project cluster machine = do
    lift (allow_clusters Operation.read organization project)
    result ← create_console_session env conditions organization project cluster machine
    pure (uncacheable 200 (Content.some_text result))

  -- `PostApiV1OrganizationsOrganizationIDProjectsProjectIDClustersClusterIDMachinesMachineIDHardreboot`
  -- and the routes that end in `Softreboot`, `Start` and `Stop`.
  unfoldable pub post_machine_action :
      ServerAction → String → String → String → String → Handler Response
  post_machine_action action organization project cluster machine = do
    lift (allow_clusters Operation.update organization project)
    act_on_machine env.base action organization project cluster machine
    pure (uncacheable 202 Content.nothing)
