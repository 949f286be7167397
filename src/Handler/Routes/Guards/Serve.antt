-- ===== src/Handler/Routes/Guards/Serve.antt =====
-- Every write of the API server is one that its user may make.
use uni_compute.Base.{◌≡◌, refl, none, some, ◌⊎◌, inl}
use uni_compute.Base.Result.{Result}
use uni_compute.External.Core.{Conditions}
use uni_compute.External.Catalog.{HandlerRequest, HandlerHistory}
use uni_compute.External.Handlers.{ApiEnv, Operation}
use uni_compute.Api.{ComputeCluster}
use uni_compute.Handler.Instances.Client
use uni_compute.Handler.Instances.Client.{instances_endpoint, server_of}
use uni_compute.Handler.Instances.Write
use uni_compute.Handler.Clusters
use uni_compute.Handler.ClustersV2
use uni_compute.Handler.ClustersV2.{clusters_endpoint}
use uni_compute.Handler.Routes.{
  get_openid_protected_resource, get_regions, get_flavors, get_images, get_clusters, post_clusters,
  delete_cluster_route, get_cluster_route, put_cluster, post_evict, get_console_output_route,
  get_console_sessions, post_machine_action,
}
use uni_compute.Handler.Routes.V2.{
  get_instances, post_instances, get_instance_route, put_instance, delete_instance_route,
  get_ssh_key, post_instance_action, post_reboot, post_snapshot, get_output_route,
  get_session_route, get_clusters_v2, post_clusters_v2, get_cluster_v2, put_cluster_v2,
  delete_cluster_v2_route, parse_or_refuse,
}
use uni_compute.Handler.Routes.Guards.{Endpoint, is_write, writes, serve, MayWrite}
use uni_compute.Handler.Routes.Guards.Reads.{
  server_read-Reads, Reads-end, regions-Reads, flavors-Reads, images-Reads, list_clusters-Reads,
  list_instances-Reads, list_clusters_v2-Reads,
}
-- `P` is what allows the writes.
use uni_compute.Handler.Routes.Guards.Checked.{
  checked_first, create-Guarded, update-Guarded, delete_instance-Guarded, on_server,
  create_v2-Guarded, update_v2-Guarded, delete_v2-Guarded, session-Reads, output-Reads, show-Reads,
  show_instance-Reads, show_v2-Reads, looking, looking_if_allowed, after_body, responding,
}

module _ (env : ApiEnv) (h : HandlerHistory) where
  -- Whatever request is served, and whatever the services answer: if the caller is not allowed what
  -- the operation takes, then nothing is sent that changes what the Kubernetes API, the region service
  -- or the identity service stores, and operations that only read never send such a request. For the
  -- actions on the server of an instance, the permission to read the instance is enough.
  pub serve-MayWrite :
      (conditions : Conditions) (mutate : ComputeCluster → ComputeCluster → Result ComputeCluster)
      (e : Endpoint)
      → (writes (serve env conditions mutate e h).1 ≡ writes h) ⊎ MayWrite env e h
  unfolding serve get_openid_protected_resource get_regions get_flavors get_images get_clusters
      post_clusters delete_cluster_route get_cluster_route put_cluster post_evict
      get_console_output_route get_console_sessions post_machine_action get_instances post_instances
      get_instance_route put_instance delete_instance_route get_ssh_key post_instance_action
      post_reboot post_snapshot get_output_route get_session_route get_clusters_v2 post_clusters_v2
      get_cluster_v2 put_cluster_v2 delete_cluster_v2_route is_write Client.ssh_key
      Client.console_session Client.console_output Client.act_on_instance Client.reboot
      Client.snapshot
  serve-MayWrite c mutate (Endpoint.openid_protected_resource host issuer age) =
      after_body env h ⊥ issuer _ λ _ _. inl refl
  serve-MayWrite c mutate (Endpoint.list_regions o) =
      looking_if_allowed env h _ (env.allow_organization "compute:regions" Operation.read o) _ _
        (regions-Reads env h o h refl)
  serve-MayWrite c mutate (Endpoint.list_flavors o region) =
      looking_if_allowed env h _ (env.allow_organization "compute:flavors" Operation.read o) _ _
        (flavors-Reads env h o region h refl)
  serve-MayWrite c mutate (Endpoint.list_images o region) =
      looking_if_allowed env h _ (env.allow_organization "compute:images" Operation.read o) _ _
        (images-Reads env h o region h refl)
  serve-MayWrite c mutate (Endpoint.list_clusters o tag) =
      looking env h (Clusters.list_clusters env c o tag h) _ (list_clusters-Reads env h c o tag)
  serve-MayWrite c mutate (Endpoint.create_cluster o p body) =
      checked_first env h (env.allow clusters_endpoint Operation.create o p) _
  serve-MayWrite c mutate (Endpoint.delete_cluster o p id) =
      checked_first env h (env.allow clusters_endpoint Operation.delete o p) _
  serve-MayWrite c mutate (Endpoint.show_cluster o p id) =
      inl (Reads-end env h _ (show-Reads env h c o p id))
  serve-MayWrite c mutate (Endpoint.update_cluster o p id body) =
      checked_first env h (env.allow clusters_endpoint Operation.update o p) _
  serve-MayWrite c mutate (Endpoint.evict o p id body) =
      checked_first env h (env.allow clusters_endpoint Operation.update o p) _
  serve-MayWrite c mutate (Endpoint.console_output o p id machine n) =
      looking_if_allowed env h _ (env.allow clusters_endpoint Operation.read o p) _ _
        (output-Reads env h c o p id machine n)
  serve-MayWrite c mutate (Endpoint.console_session o p id machine) =
      looking_if_allowed env h _ (env.allow clusters_endpoint Operation.read o p) _ _
        (session-Reads env h c o p id machine)
  serve-MayWrite c mutate (Endpoint.machine_action action o p id machine) =
      checked_first env h (env.allow clusters_endpoint Operation.update o p) _
  serve-MayWrite c mutate (Endpoint.list_instances params) =
      looking env h (Client.list_instances env params h) _ (list_instances-Reads env h params)
  serve-MayWrite c mutate (Endpoint.create_instance body) = after_body env h _ body _ λ request e.
      responding env h _ (Write.create env request h) _ (create-Guarded env h body request e)
  serve-MayWrite c mutate (Endpoint.delete_instance id) =
      responding env h _ (Client.delete_instance env id h) _ (delete_instance-Guarded env h id)
  serve-MayWrite c mutate (Endpoint.show_instance id) =
      looking env h (Client.get_instance env id h) _ (show_instance-Reads env h id)
  serve-MayWrite c mutate (Endpoint.ssh_key id) =
      looking env h (Client.ssh_key env id h) _
        (server_read-Reads env h id (λ s. HandlerRequest.get_ssh_key s) env.text λ _. refl)
  serve-MayWrite c mutate (Endpoint.instance_session id) =
      looking env h (Client.console_session env id h) _
        (server_read-Reads env h id (λ s. HandlerRequest.get_session_v2 s) env.text λ _. refl)
  serve-MayWrite c mutate (Endpoint.update_instance id body) =
      after_body env h _ body _ λ request e.
        responding env h _ (Write.update env id request h) _ (update-Guarded env h id request)
  serve-MayWrite c mutate (Endpoint.instance_output id n) =
      looking env h (Client.console_output env id n h) _
        (server_read-Reads env h id (λ s. HandlerRequest.get_output_v2 s n) env.text λ _. refl)
  serve-MayWrite c mutate (Endpoint.instance_action action id) =
      responding env h _ (Client.act_on_instance env action id h) _ (on_server env h id _)
  serve-MayWrite c mutate (Endpoint.reboot_instance id none) =
      responding env h _ (Client.reboot env id none h) _ (on_server env h id _)
  serve-MayWrite c mutate (Endpoint.reboot_instance id (some hard)) =
      responding env h _ (Client.reboot env id (some hard) h) _ (on_server env h id _)
  serve-MayWrite c mutate (Endpoint.snapshot_instance id body) =
      after_body env h _ (parse_or_refuse body) _
        λ request e. responding env h _ (Client.snapshot env id request h) _ (on_server env h id _)
  serve-MayWrite c mutate (Endpoint.list_clusters_v2 params) =
      looking env h (ClustersV2.list_clusters env params h) _ (list_clusters_v2-Reads env h params)
  serve-MayWrite c mutate (Endpoint.create_cluster_v2 body) = after_body env h _ body _ λ request e.
      responding env h _ (ClustersV2.create env request h) _
        (create_v2-Guarded env h body request e)
  serve-MayWrite c mutate (Endpoint.delete_cluster_v2 id) =
      responding env h _ (ClustersV2.delete_cluster env id h) _ (delete_v2-Guarded env h id)
  serve-MayWrite c mutate (Endpoint.show_cluster_v2 id) =
      looking env h (ClustersV2.get_cluster env id h) _ (show_v2-Reads env h id)
  serve-MayWrite c mutate (Endpoint.update_cluster_v2 id body) =
      after_body env h _ body _ λ request e.
        responding env h _ (ClustersV2.update env id request h) _
          (update_v2-Guarded env h id request)
