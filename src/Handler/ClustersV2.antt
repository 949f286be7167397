-- ===== src/Handler/ClustersV2.antt =====
-- client_v2.go of the cluster handler: version 2 clusters, which are pools of instances.
pub mod Pools
pub mod Versions
use uni_compute.Base.{
  ℕ, zero, suc, String, Bool, true, false, not, ◌||◌, ◌&&◌, Option, none, some, List, [], ◌∷◌, map,
  length, delete_func, if◌then◌else◌, eqb, ltb, ◌+◌, ◌*◌, ◌-◌,
}
use uni_compute.Base.Dict.{Dict, lookup, lookup_or}
use uni_compute.Base.Int.{ℤ, pos, negsuc}
use uni_compute.Base.Sort.{codes, sort_by}
use uni_compute.Base.Result.{
  Result, ok, err, panic, not_found, transport, unspecified, invalid_request,
}
use uni_compute.Base.Result
use uni_compute.Base.State.{Comp, ◌>>=◌, ◌>>◌, pure, fail, lift, get}
use uni_compute.External.Core.{Tag, IPv4Prefix, ObjectMeta}
use uni_compute.External.Catalog.{
  Lookup, found, missing, broken, Requirement, among, HandlerRequest, HandlerHistory,
}
use uni_compute.External.Handlers.{ApiEnv, Operation, NetworkV2Read}
use uni_compute.Api.{
  ComputeCluster, InstancePoolSpec, InstancePoolStatus, ComputeInstanceNetworking,
}
use uni_compute.OpenApi.{
  PoolV2, PoolV2Status, ClusterV2Create, ClusterV2Update, ClusterV2Read, ListParams,
}
use uni_compute.Cluster.Provision.{resource_api_version_label}
use uni_compute.Handler.Client.{Handler, write, remove}
use uni_compute.Handler.Services.{
  ask, id_query, add_region_id_query, add_network_id_query, inject_user_principal, get_network,
}
use uni_compute.Handler.Instances.{convert_networking, generate_networking, list_or_nil}
use uni_compute.Handler.Instances.Client.{convert_user_data}

-- `strconv.Atoi` on the digits that follow a sign, with the value so far.
unfoldable pub digits : ℕ → List ℕ → Option ℕ
digits acc [] = some acc
digits acc (c ∷ cs) =
    let rest = digits (acc * 10 + (c - b'0')) cs in
    if not (ltb c b'0') && not (ltb b'9' c) then rest else none

abbrev magnitude : List ℕ → Option ℕ
magnitude [] = none
magnitude (c ∷ cs) = digits 0 (c ∷ cs)

-- The range of a 64-bit integer.
abbrev above_zero : Option ℕ → Option ℤ
above_zero none = none
above_zero (some n) = if ltb n 9223372036854775808 then some (pos n) else none

abbrev below_zero : Option ℕ → Option ℤ
below_zero none = none
below_zero (some zero) = some (pos 0)
below_zero (some (suc n)) = if ltb n 9223372036854775808 then some (negsuc n) else none

abbrev signed : List ℕ → Option ℤ
signed [] = none
signed (c ∷ cs) =
    if eqb c b'-'
    then below_zero (magnitude cs)
    else if eqb c b'+'
    then above_zero (magnitude cs)
    else above_zero (magnitude (c ∷ cs))

-- `UnmarshalAPIVersion`
unfoldable pub unmarshal_api_version : String → Option ℤ
unfolding digits
unmarshal_api_version t = signed (codes t)

-- `MarshalAPIVersion(2)`
abbrev pub version_two : String
version_two = "2"

-- `convertPools`
abbrev pub convert_pool : InstancePoolSpec → PoolV2
convert_pool pool = record {
  name = pool.name;
  replicas = pool.replicas;
  flavor_id = pool.template.flavor_id;
  image_id = pool.template.image_id;
  networking = convert_networking pool.template.networking;
  user_data = convert_user_data pool.template.user_data;
}

unfoldable pub convert_pools : List InstancePoolSpec → List PoolV2
convert_pools = map convert_pool

-- `convertPoolsStatus`
unfoldable pub convert_pools_status : List InstancePoolStatus → List PoolV2Status
convert_pools_status = map λ pool. record { name = pool.name; replicas = pool.replicas }

abbrev pub build_pool : PoolV2 → Option ComputeInstanceNetworking → InstancePoolSpec
build_pool pool networking = record {
  name = pool.name;
  replicas = pool.replicas;
  template = record {
    flavor_id = pool.flavor_id;
    image_id = pool.image_id;
    pause = false;
    tags = [];
    networking = networking;
    user_data = list_or_nil pool.user_data;
  };
}

-- `generatePools`
unfoldable pub generate_pools :
    (String → Option IPv4Prefix) → List PoolV2 → Result (List InstancePoolSpec)
generate_pools parse [] = ok []
generate_pools parse (pool ∷ pools) =
    Result.◌>>=◌ (generate_networking parse pool.networking) λ networking.
      Result.◌>>=◌ (generate_pools parse pools) λ rest. ok (build_pool pool networking ∷ rest)

-- `convertCreateToUpdateRequest`: through JSON, the fields that both have.
abbrev pub convert_create_to_update_request : ClusterV2Create → ClusterV2Update
convert_create_to_update_request request = record {
  metadata = request.metadata;
  pools = request.pools;
}

abbrev pub clusters_endpoint : String
clusters_endpoint = "compute:clusters"

-- The check of the version label of `GetRawV2`.
abbrev pub check_version : Option String → Result (Unit {0})
check_version none = err not_found
check_version (some v) = elim (unmarshal_api_version v) [
  | none ↦ err unspecified
  | some version ↦ elim version [
    | pos n ↦ if eqb n 2 then ok tt else err not_found
    | negsuc _ ↦ err not_found
  ]
]

module _ (env : ApiEnv) where
  abbrev pub organization_of : ComputeCluster → String
  organization_of c = lookup_or "" env.metadata.organization_label c.labels

  abbrev pub project_of : ComputeCluster → String
  project_of c = lookup_or "" env.metadata.project_label c.labels

  abbrev pub region_of : ComputeCluster → String
  region_of c = lookup_or "" env.region_label c.labels

  abbrev pub network_of : ComputeCluster → String
  network_of c = lookup_or "" env.network_label c.labels

  -- `convert`
  unfoldable pub convert : ComputeCluster → ClusterV2Read
  convert c = record {
    name = c.name;
    tags = c.spec.tags;
    pools = convert_pools c.spec.pools;
    status = record {
      network_id = network_of c;
      region_id = region_of c;
      pools = convert_pools_status c.status.pools;
    };
  }

  abbrev pub allow : Operation → ComputeCluster → Result (Unit {0})
  allow operation c = env.allow clusters_endpoint operation (organization_of c) (project_of c)

  -- What `GetRawV2` makes of the answer.
  abbrev pub check_raw : Lookup ComputeCluster → Result ComputeCluster
  check_raw missing = err not_found
  check_raw (broken e) = err (transport e)
  check_raw (found c) =
      Result.◌>>=◌ (allow Operation.read c)
        λ _. Result.◌>>=◌ (check_version (lookup resource_api_version_label c.labels)) λ _. ok c

  -- `GetRawV2`
  unfoldable pub get_raw : String → Handler ComputeCluster
  get_raw id = do answer ← ask (HandlerRequest.get_cluster id) env.cluster; lift (check_raw answer)

  -- `GetV2`
  unfoldable pub get_cluster : String → Handler ClusterV2Read
  get_cluster id = do c ← get_raw id; pure (convert c)

  -- The filter of `ListV2`.
  abbrev pub is_hidden : List Tag → ComputeCluster → Bool
  is_hidden tags c =
      not (env.contains_all c.spec.tags tags)
      || (elim (allow Operation.read c) [ ok _ ↦ false | err _ ↦ true | panic ↦ true ])

  -- `ListV2`
  unfoldable pub list_clusters : ListParams → Handler (List ClusterV2Read)
  list_clusters params = do
    scoped ← lift (
        env.add_scope (among resource_api_version_label (version_two ∷ []) ∷ [])
          (id_query params.organization_id) (id_query params.project_id))
    regional ← lift (add_region_id_query env scoped params.region_id)
    selector ← lift (add_network_id_query env regional params.network_id)
    answer ← ask (HandlerRequest.list_clusters selector) env.clusters
    all ← lift answer
    tags ← lift (env.decode_tags params.tag)
    pure (map convert (sort_by (λ c. c.name) (delete_func (is_hidden tags) all)))

  -- The metadata that `generate` builds.
  abbrev pub build_metadata :
      HandlerHistory → ClusterV2Update → String → String → String → String → ObjectMeta
  build_metadata h request organization project region network =
      let m = env.metadata in
      m.with_label resource_api_version_label version_two (
        m.with_label env.network_label network (
          m.with_label env.region_label region (
            m.with_project project (
              m.with_organization organization
                (m.new_object (length h) request.metadata env.namespace)))))

  abbrev pub build : ClusterV2Update → List InstancePoolSpec → ObjectMeta → ComputeCluster
  build request pools meta = record {
    name = meta.name;
    labels = meta.labels;
    annotations = meta.annotations;
    deleting = false;
    spec = record {
      pause = false;
      tags = env.metadata.generate_tag_list request.metadata.tags;
      region_id = "";
      network = none;
      workload_pools = [];
      pools = pools;
    };
    status = record { ssh_private_key = none; workload_pools = []; conditions = []; pools = [] };
  }

  -- `generate`
  unfoldable pub generate :
      ClusterV2Update → String → String → String → String → Handler ComputeCluster
  generate request organization project region network = do
    pools ← lift (generate_pools env.parse request.pools)
    h ← get
    inject_user_principal env organization project
    meta ←
        lift
          (env.metadata.set_identity (build_metadata h request organization project region network))
    pure (build request pools meta)

  -- `CreateV2`
  unfoldable pub create : ClusterV2Create → Handler ClusterV2Read
  create request = do
    h ← get
    lift (env.allow_create h clusters_endpoint request.organization_id request.project_id)
    inject_user_principal env request.organization_id request.project_id
    network ← get_network env request.network_id
    c ←
        generate (convert_create_to_update_request request) request.organization_id
          request.project_id network.region_id request.network_id
    write env.base (HandlerRequest.create_cluster c)
    pure (convert c)

  -- The cluster that `UpdateV2` stores.
  abbrev pub merge : ComputeCluster → ComputeCluster → ComputeCluster
  merge current required = record current {
    labels = required.labels;
    annotations = required.annotations;
    spec = required.spec;
  }

  -- `UpdateV2`, once the cluster is read.
  unfoldable pub update_current : ComputeCluster → ClusterV2Update → Handler ClusterV2Read
  update_current current request = do
    required ←
        generate request (organization_of current) (project_of current) (region_of current)
          (network_of current)
    write env.base (HandlerRequest.patch_cluster (merge current required))
    pure (convert (merge current required))

  -- `UpdateV2`
  unfoldable pub update : String → ClusterV2Update → Handler ClusterV2Read
  update id request = do
    current ← get_raw id
    lift (allow Operation.update current)
    if current.deleting then fail invalid_request else update_current current request

  -- `DeleteV2`
  unfoldable pub delete_cluster : String → Handler (Unit {0})
  delete_cluster id = do
    c ← get_raw id
    if c.deleting
        then pure tt
        else (lift (allow Operation.delete c)
            >> remove env.base (HandlerRequest.delete_cluster c.name))
