-- ===== src/Handler/Routes/Guards.antt =====
-- The routes of the API server as one dispatch, as the generated router.go has it, and who may send
-- requests that change what the services store.
pub mod Reads
pub mod Checked
pub mod Serve
use uni_compute.Base.{ℕ, ◌≡◌, Bool, true, false, Option, List, [], ◌∷◌, String, if◌then◌else◌}
use uni_compute.Base.Result.{Result, ok, err, panic}
use uni_compute.External.Core.{Conditions, ResourceMetadata}
use uni_compute.External.Catalog.{ServerAction, HandlerRequest, HandlerHistory, found}
use uni_compute.External.Handlers.{ApiEnv, Operation}
use uni_compute.Api.{ComputeCluster, ComputeInstance}
use uni_compute.OpenApi.{
  ComputeClusterWrite, InstanceCreate, InstanceUpdate, ClusterV2Create, ClusterV2Update, ListParams,
}
use uni_compute.Handler.Client.{Handler}
use uni_compute.Handler.Instances.Client.{instances_endpoint}
use uni_compute.Handler.Instances.Client
use uni_compute.Handler.ClustersV2.{clusters_endpoint}
use uni_compute.Handler.ClustersV2
use uni_compute.Handler.Routes.{
  Response, get_openid_protected_resource, get_regions, get_flavors, get_images, get_clusters,
  post_clusters, delete_cluster_route, get_cluster_route, put_cluster, post_evict,
  get_console_output_route, get_console_sessions, post_machine_action, allow_clusters,
}
use uni_compute.Handler.Routes.V2.{
  get_instances, post_instances, get_instance_route, put_instance, delete_instance_route,
  get_ssh_key, post_instance_action, post_reboot, post_snapshot, get_output_route,
  get_session_route, get_clusters_v2, post_clusters_v2, get_cluster_v2, put_cluster_v2,
  delete_cluster_v2_route,
}

-- The operations of `ServerInterface`, with their parameters and what is read from their bodies.
pub data Endpoint : Type 0 where
  openid_protected_resource : String → Result String → ℕ → Endpoint
  list_regions : String → Endpoint
  list_flavors list_images : String → String → Endpoint
  list_clusters : String → Option (List String) → Endpoint
  create_cluster : String → String → Result ComputeClusterWrite → Endpoint
  delete_cluster show_cluster : String → String → String → Endpoint
  update_cluster : String → String → String → Result ComputeClusterWrite → Endpoint
  evict : String → String → String → Result (List String) → Endpoint
  console_output : String → String → String → String → Option ℕ → Endpoint
  console_session : String → String → String → String → Endpoint
  machine_action : ServerAction → String → String → String → String → Endpoint
  list_instances : ListParams → Endpoint
  create_instance : Result InstanceCreate → Endpoint
  delete_instance show_instance ssh_key instance_session : String → Endpoint
  update_instance : String → Result InstanceUpdate → Endpoint
  instance_output : String → Option ℕ → Endpoint
  instance_action : ServerAction → String → Endpoint
  reboot_instance : String → Option Bool → Endpoint
  snapshot_instance : String → Result ResourceMetadata → Endpoint
  list_clusters_v2 : ListParams → Endpoint
  create_cluster_v2 : Result ClusterV2Create → Endpoint
  delete_cluster_v2 show_cluster_v2 : String → Endpoint
  update_cluster_v2 : String → Result ClusterV2Update → Endpoint

-- Does the request change what a service stores, or act on a server?
unfoldable pub is_write : HandlerRequest → Bool
is_write (HandlerRequest.update_allocations _ _) = true
is_write (HandlerRequest.patch_cluster _) = true
is_write (HandlerRequest.delete_cluster _) = true
is_write (HandlerRequest.act_on_server _ _ _ _ _) = true
is_write (HandlerRequest.delete_server _ _ _ _) = true
is_write (HandlerRequest.create_identity _ _ _) = true
is_write (HandlerRequest.create_network _ _ _ _) = true
is_write (HandlerRequest.create_allocations _ _) = true
is_write (HandlerRequest.create_cluster _) = true
is_write (HandlerRequest.act_on_server_v2 _ _) = true
is_write (HandlerRequest.create_snapshot _ _) = true
is_write (HandlerRequest.allocate _ _) = true
is_write (HandlerRequest.reallocate _ _) = true
is_write (HandlerRequest.release _) = true
is_write (HandlerRequest.create_instance _) = true
is_write (HandlerRequest.patch_instance _) = true
is_write (HandlerRequest.delete_instance _) = true
is_write _ = false

-- The writes of a history.
unfoldable pub writes : HandlerHistory → List HandlerRequest
unfolding is_write
writes [] = []
writes (r ∷ h) = let rest = writes h in if is_write r then r ∷ rest else rest

module _ (env : ApiEnv) where
  -- The route that the router takes for an operation.
  unfoldable pub serve :
      Conditions
      → (ComputeCluster → ComputeCluster → Result ComputeCluster)
      → Endpoint
      → Handler Response
  serve c _ (Endpoint.openid_protected_resource host issuer age) =
      get_openid_protected_resource host issuer age
  serve c _ (Endpoint.list_regions o) = get_regions env c o
  serve c _ (Endpoint.list_flavors o region) = get_flavors env c o region
  serve c _ (Endpoint.list_images o region) = get_images env c o region
  serve c _ (Endpoint.list_clusters o tag) = get_clusters env c o tag
  serve c _ (Endpoint.create_cluster o p body) = post_clusters env c o p body
  serve c _ (Endpoint.delete_cluster o p id) = delete_cluster_route env c o p id
  serve c _ (Endpoint.show_cluster o p id) = get_cluster_route env c o p id
  serve c mutate (Endpoint.update_cluster o p id body) = put_cluster env c mutate o p id body
  serve c _ (Endpoint.evict o p id body) = post_evict env c o p id body
  serve c _ (Endpoint.console_output o p id machine n) =
      get_console_output_route env c o p id machine n
  serve c _ (Endpoint.console_session o p id machine) = get_console_sessions env c o p id machine
  serve c _ (Endpoint.machine_action action o p id machine) =
      post_machine_action env c action o p id machine
  serve c _ (Endpoint.list_instances params) = get_instances env params
  serve c _ (Endpoint.create_instance body) = post_instances env body
  serve c _ (Endpoint.delete_instance id) = delete_instance_route env id
  serve c _ (Endpoint.show_instance id) = get_instance_route env id
  serve c _ (Endpoint.ssh_key id) = get_ssh_key env id
  serve c _ (Endpoint.instance_session id) = get_session_route env id
  serve c _ (Endpoint.update_instance id body) = put_instance env id body
  serve c _ (Endpoint.instance_output id n) = get_output_route env id n
  serve c _ (Endpoint.instance_action action id) = post_instance_action env action id
  serve c _ (Endpoint.reboot_instance id hard) = post_reboot env id hard
  serve c _ (Endpoint.snapshot_instance id body) = post_snapshot env id body
  serve c _ (Endpoint.list_clusters_v2 params) = get_clusters_v2 env params
  serve c _ (Endpoint.create_cluster_v2 body) = post_clusters_v2 env body
  serve c _ (Endpoint.delete_cluster_v2 id) = delete_cluster_v2_route env id
  serve c _ (Endpoint.show_cluster_v2 id) = get_cluster_v2 env id
  serve c _ (Endpoint.update_cluster_v2 id body) = put_cluster_v2 env id body

  -- The instance that is read is one that the user may read, and may do `operation` to.
  abbrev pub MayDo : Operation → String → HandlerHistory → Type 0
  MayDo operation id h =
      (i : ComputeInstance) × (env.instance_read (HandlerRequest.get_instance id ∷ h) ≡ found i)
      × (Client.allow env Operation.read i ≡ ok tt)
      × (Client.allow env operation i ≡ ok tt)

  -- The same of a version 2 cluster.
  abbrev pub MayDoCluster : Operation → String → HandlerHistory → Type 0
  MayDoCluster operation id h =
      (c : ComputeCluster) × (env.cluster (HandlerRequest.get_cluster id ∷ h) ≡ found c)
      × (ClustersV2.allow env Operation.read c ≡ ok tt)
      × (ClustersV2.allow env operation c ≡ ok tt)

  -- What a user must be allowed for the writes of an operation, the last argument being the history
  -- before it. An operation with the type `⊥` never writes.
  abbrev pub MayWrite : Endpoint → HandlerHistory → Type 0
  MayWrite (Endpoint.create_cluster o p _) h =
      env.allow clusters_endpoint Operation.create o p ≡ ok tt
  MayWrite (Endpoint.delete_cluster o p _) h =
      env.allow clusters_endpoint Operation.delete o p ≡ ok tt
  MayWrite (Endpoint.update_cluster o p _ _) h =
      env.allow clusters_endpoint Operation.update o p ≡ ok tt
  MayWrite (Endpoint.evict o p _ _) h = env.allow clusters_endpoint Operation.update o p ≡ ok tt
  MayWrite (Endpoint.machine_action _ o p _ _) h =
      env.allow clusters_endpoint Operation.update o p ≡ ok tt
  MayWrite (Endpoint.create_instance body) h =
      (request : InstanceCreate) × (body ≡ ok request)
      × (env.allow_create h instances_endpoint request.spec.organization_id request.spec.project_id
          ≡ ok tt)
  MayWrite (Endpoint.delete_instance id) h = MayDo Operation.delete id h
  MayWrite (Endpoint.update_instance id _) h = MayDo Operation.update id h
  MayWrite (Endpoint.instance_action _ id) h = MayDo Operation.read id h
  MayWrite (Endpoint.reboot_instance id _) h = MayDo Operation.read id h
  MayWrite (Endpoint.snapshot_instance id _) h = MayDo Operation.read id h
  MayWrite (Endpoint.create_cluster_v2 body) h =
      (request : ClusterV2Create) × (body ≡ ok request)
      × (env.allow_create h clusters_endpoint request.organization_id request.project_id ≡ ok tt)
  MayWrite (Endpoint.delete_cluster_v2 id) h = MayDoCluster Operation.delete id h
  MayWrite (Endpoint.update_cluster_v2 id _) h = MayDoCluster Operation.update id h
  MayWrite _ h = ⊥
