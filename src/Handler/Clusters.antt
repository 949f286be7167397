-- ===== src/Handler/Clusters.antt =====
-- client.go and conversion.go of the cluster handler: whole clusters, which are listed, shown, created
-- and updated, and the consoles of their machines.
pub mod Configured
pub mod Stored
pub mod Lives
use uni_compute.Base.{
  ℕ, String, Bool, true, false, not, ◌<>◌, Option, none, some, List, [], ◌∷◌, map, find, length,
  delete_func, if◌then◌else◌, ◌==◌, string_eq,
}
use uni_compute.Base.Dict.{Dict, lookup_or, insert}
use uni_compute.Base.Sort.{sort_by}
use uni_compute.Base.Result.{Result, ok, err, panic, invalid_request}
use uni_compute.Base.State.{Comp, ◌>>=◌, ◌>>◌, pure, fail, lift, get}
use uni_compute.External.Core.{Tag, IPv4Prefix, ObjectMeta, Conditions}
use uni_compute.External.Catalog.{
  RegionRead, Requirement, among, absent, Selector, IdentityWrite, NetworkWrite, Allocation,
  HandlerRequest, HandlerHistory,
}
use uni_compute.External.Handlers.{ApiEnv}
use uni_compute.Api.{
  ComputeCluster, ComputeClusterStatus, ComputeClusterWorkloadPoolSpec, NetworkGeneric,
  WorkloadPoolStatus,
}
use uni_compute.OpenApi.{
  ComputeClusterWrite, ComputeClusterRead, ComputeClusterStatusRead, ListParams,
}
use uni_compute.Cluster.State.{expect}
use uni_compute.Cluster.Provision.{resource_api_version_label}
use uni_compute.Handler.Client.{Handler, regions, write, get_cluster}
use uni_compute.Handler.Services.{ask}
use uni_compute.Handler.Convert.{convert_workload_pool, convert_workload_pool_status}
use uni_compute.Handler.Generate.{lookup_region, generate_workload_pools}
use uni_compute.Handler.Evict.{generate_allocations, store}
use uni_compute.Handler.Metadata.{metadata_mutator}

-- `convertClusterStatus`
unfoldable pub convert_cluster_status : Conditions → ComputeClusterStatus → ComputeClusterStatusRead
convert_cluster_status conditions status = record {
  ssh_private_key = status.ssh_private_key;
  workload_pools = map (convert_workload_pool_status conditions) status.workload_pools;
}

abbrev pub identity_tags : String → String → List Tag
identity_tags label cluster = record { name = label; value = cluster } ∷ []

module _ (env : ApiEnv) (conditions : Conditions) where
  -- `convert`
  unfoldable pub convert : ComputeCluster → ComputeClusterRead
  convert cluster = record {
    name = cluster.name;
    project_id = lookup_or "" env.metadata.project_label cluster.labels;
    tags = cluster.spec.tags;
    region_id = cluster.spec.region_id;
    workload_pools = map convert_workload_pool cluster.spec.workload_pools;
    status = convert_cluster_status conditions cluster.status;
  }

  -- `List`
  unfoldable pub list_clusters : String → Option (List String) → Handler (List ComputeClusterRead)
  list_clusters organization tag = do
    answer ←
        ask
          (HandlerRequest.list_clusters (
            among env.metadata.organization_label (organization ∷ [])
            ∷ absent resource_api_version_label
            ∷ []))
          env.clusters
    all ← lift answer
    tags ← lift (env.decode_tags tag)
    pure (
        map convert (
          sort_by (λ cluster. cluster.name)
            (delete_func (λ cluster. not (env.contains_all cluster.spec.tags tags)) all)))

  -- `Get`
  unfoldable pub show_cluster : String → String → String → Handler ComputeClusterRead
  show_cluster organization project id = do
    cluster ← get_cluster env.base organization project id
    pure (convert cluster)

  -- `generateNetwork`
  abbrev pub generate_network : NetworkGeneric
  generate_network = record {
    node_network = env.node_network;
    dns_nameservers = env.default_nameservers;
  }

  -- The metadata that `generate` builds.
  abbrev pub build_metadata : HandlerHistory → ComputeClusterWrite → String → String → ObjectMeta
  build_metadata h request organization project = env.metadata.with_project project (
      env.metadata.with_organization organization
        (env.metadata.new_object (length h) request.metadata env.namespace))

  abbrev pub build :
      ComputeClusterWrite → List ComputeClusterWorkloadPoolSpec → ObjectMeta → ComputeCluster
  build request pools meta = record {
    name = meta.name;
    labels = meta.labels;
    annotations = meta.annotations;
    deleting = false;
    spec = record {
      pause = false;
      tags = env.metadata.generate_tag_list request.metadata.tags;
      region_id = request.region_id;
      network = some generate_network;
      workload_pools = pools;
      pools = [];
    };
    status = record { ssh_private_key = none; workload_pools = []; conditions = []; pools = [] };
  }

  -- `generate`, with `lookupRegion` in it.
  unfoldable pub generate :
      String → String → Option ComputeCluster → ComputeClusterWrite → Handler ComputeCluster
  generate organization project current request = do
    all ← regions env.base organization
    _ ← lift (lookup_region all request.region_id)
    pools ←
        generate_workload_pools env.parse env.base organization request.region_id current
          request.workload_pools
    h ← get
    meta ← lift (env.metadata.set_identity (build_metadata h request organization project))
    pure (build request pools meta)

  -- The body that `createIdentity` sends.
  abbrev pub identity_request : String → String → IdentityWrite
  identity_request region cluster = record {
    name = "compute-cluster-" <> cluster;
    description = "Identity for Compute cluster " <> cluster;
    tags = identity_tags env.compute_cluster_label cluster;
    region_id = region;
  }

  -- `createIdentity`, which answers with the ID of the identity.
  unfoldable pub create_identity : String → String → String → String → Handler String
  create_identity organization project region cluster = do
    reply ←
        ask (HandlerRequest.create_identity organization project (identity_request region cluster))
          env.created
    lift (expect 201 reply)

  -- The body that `createNetworkOpenstack` sends.
  abbrev pub network_request : ComputeCluster → NetworkGeneric → NetworkWrite
  network_request cluster network = record {
    name = "compute-cluster-" <> cluster.name;
    description = "Network for cluster " <> cluster.name;
    tags = identity_tags env.compute_cluster_label cluster.name;
    prefix = network.node_network.text;
    dns_nameservers = network.dns_nameservers;
  }

  -- `createNetworkOpenstack`, which answers with the ID of the network. It dereferences the network
  -- of the cluster.
  unfoldable pub create_network_openstack :
      String → String → ComputeCluster → String → Handler String
  create_network_openstack organization project cluster identity = elim cluster.spec.network [
    | none ↦ λ h. (panic, h)
    | some network ↦
        ask
          (HandlerRequest.create_network organization project identity
            (network_request cluster network))
          env.created
        >>= λ reply. lift (expect 201 reply)
  ]

  abbrev pub with_identity : String → ComputeCluster → ComputeCluster
  with_identity identity cluster = record cluster {
    annotations = insert env.identity_annotation identity cluster.annotations;
  }

  abbrev pub with_network : String → ComputeCluster → ComputeCluster
  with_network network cluster = record cluster {
    labels = insert env.network_label network cluster.labels;
  }

  -- `applyCloudSpecificConfiguration`
  unfoldable pub apply_cloud_specific_configuration :
      String → String → String → ComputeCluster → Handler ComputeCluster
  apply_cloud_specific_configuration organization project identity cluster = do
    network ←
        create_network_openstack organization project (with_identity identity cluster) identity
    pure (with_network network (with_identity identity cluster))

  -- `NewAllocations(...).Create`, which notes the allocation on the cluster.
  unfoldable pub allocate : ComputeCluster → List Allocation → Handler ComputeCluster
  allocate cluster allocations = do
    write env.base (HandlerRequest.create_allocations cluster allocations)
    h ← get
    pure (record cluster { annotations = env.allocated h cluster.annotations })

  -- `Create`, once the cluster is generated.
  unfoldable pub create_generated :
      String → String → String → ComputeCluster → Handler ComputeClusterRead
  create_generated organization project region cluster = do
    identity ← create_identity organization project region cluster.name
    allocations ← generate_allocations env.base organization cluster
    allocated ← allocate cluster allocations
    configured ← apply_cloud_specific_configuration organization project identity allocated
    write env.base (HandlerRequest.create_cluster configured)
    pure (convert configured)

  -- `Create`
  unfoldable pub create : String → String → ComputeClusterWrite → Handler ComputeClusterRead
  create organization project request = do
    cluster ← generate organization project none request
    create_generated organization project request.region_id cluster

  -- The cluster that `Update` stores: a copy of the current one with the labels, the annotations and
  -- the specification of the required one.
  abbrev pub merge : ComputeCluster → ComputeCluster → ComputeCluster
  merge current required = record current {
    labels = required.labels;
    annotations = required.annotations;
    spec = required.spec;
  }

  -- `Update`, once the cluster is read. What `UpdateObjectMetadata` and
  -- `common.IdentityMetadataMutator` do before `metadataMutator` is the parameter `mutate`.
  unfoldable pub update_current :
      (ComputeCluster → ComputeCluster → Result ComputeCluster)
      → String
      → String
      → ComputeCluster
      → ComputeClusterWrite
      → Handler (Unit {0})
  update_current mutate organization project current request = do
    required ← generate organization project (some current) request
    mutated ← lift (mutate required current)
    store env.base organization (merge current (metadata_mutator env.base mutated current))

  -- `Update`
  unfoldable pub update :
      (ComputeCluster → ComputeCluster → Result ComputeCluster)
      → String
      → String
      → String
      → ComputeClusterWrite
      → Handler (Unit {0})
  update mutate organization project id request = do
    current ← get_cluster env.base organization project id
    if current.deleting
        then fail invalid_request
        else update_current mutate organization project current request

  abbrev identity_of : ComputeCluster → String
  identity_of cluster = lookup_or "" env.identity_annotation cluster.annotations

  -- `CreateConsoleSession` and `GetConsoleOutput` of the region client.
  unfoldable pub session_of : String → String → String → String → Handler String
  session_of organization project identity machine = do
    reply ← ask (HandlerRequest.get_console_session organization project identity machine) env.text
    lift (expect 200 reply)

  unfoldable pub output_of : String → String → String → String → Option ℕ → Handler String
  output_of organization project identity machine length = do
    reply ←
        ask (HandlerRequest.get_console_output organization project identity machine length)
          env.text
    lift (expect 200 reply)

  -- `CreateConsoleSession`
  unfoldable pub create_console_session : String → String → String → String → Handler String
  create_console_session organization project id machine = do
    cluster ← get_cluster env.base organization project id
    if cluster.deleting
        then fail invalid_request
        else session_of organization project (identity_of cluster) machine

  -- `GetConsoleOutput`
  unfoldable pub get_console_output : String → String → String → String → Option ℕ → Handler String
  get_console_output organization project id machine length = do
    cluster ← get_cluster env.base organization project id
    if cluster.deleting
        then fail invalid_request
        else output_of organization project (identity_of cluster) machine length
