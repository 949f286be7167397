-- ===== src/Handler/Routes/V2.antt =====
-- handler_v2.go: the routes of version 2. The clients check access.
use uni_compute.Base.{ℕ, String, Bool, Option}
use uni_compute.Base.Result.{Result, ok, err, panic, invalid_request}
use uni_compute.Base.State.{◌>>=◌, ◌>>◌, pure, lift}
use uni_compute.External.Core.{ResourceMetadata}
use uni_compute.External.Catalog.{ServerAction}
use uni_compute.External.Handlers.{ApiEnv}
use uni_compute.OpenApi.{
  InstanceCreate, InstanceUpdate, ClusterV2Create, ClusterV2Update, ListParams,
}
use uni_compute.Handler.Client.{Handler}
use uni_compute.Handler.Instances.Client.{
  list_instances, get_instance, delete_instance, ssh_key, act_on_instance, reboot, snapshot,
  console_output, console_session,
}
use uni_compute.Handler.Instances.Write
use uni_compute.Handler.ClustersV2
use uni_compute.Handler.Routes.{Content, Response, plain}

-- The error that the snapshot route makes of a body that it cannot read.
abbrev pub parse_or_refuse : {A : Type 0} → Result A → Result A
parse_or_refuse (ok a) = ok a
parse_or_refuse (err _) = err invalid_request
parse_or_refuse panic = panic

module _ (env : ApiEnv) where
  -- `GetApiV2Instances`
  unfoldable pub get_instances : ListParams → Handler Response
  get_instances params = do
    result ← list_instances env params
    pure (plain 200 (Content.some_instances result))

  -- `PostApiV2Instances`
  unfoldable pub post_instances : Result InstanceCreate → Handler Response
  post_instances body = do
    request ← lift body
    result ← Write.create env request
    pure (plain 201 (Content.one_instance result))

  -- `GetApiV2InstancesInstanceID`
  unfoldable pub get_instance_route : String → Handler Response
  get_instance_route id = do
    result ← get_instance env id
    pure (plain 200 (Content.one_instance result))

  -- `PutApiV2InstancesInstanceID`
  unfoldable pub put_instance : String → Result InstanceUpdate → Handler Response
  put_instance id body = do
    request ← lift body
    result ← Write.update env id request
    pure (plain 202 (Content.one_instance result))

  -- `DeleteApiV2InstancesInstanceID`
  unfoldable pub delete_instance_route : String → Handler Response
  delete_instance_route id = delete_instance env id >> pure (plain 202 Content.nothing)

  -- `GetApiV2InstancesInstanceIDSshkey`
  unfoldable pub get_ssh_key : String → Handler Response
  get_ssh_key id = do result ← ssh_key env id; pure (plain 200 (Content.some_text result))

  -- `PostApiV2InstancesInstanceIDStart` and `PostApiV2InstancesInstanceIDStop`
  unfoldable pub post_instance_action : ServerAction → String → Handler Response
  post_instance_action action id = act_on_instance env action id >> pure (plain 202 Content.nothing)

  -- `PostApiV2InstancesInstanceIDReboot`
  unfoldable pub post_reboot : String → Option Bool → Handler Response
  post_reboot id hard = reboot env id hard >> pure (plain 202 Content.nothing)

  -- `PostApiV2InstancesInstanceIDSnapshot`
  unfoldable pub post_snapshot : String → Result ResourceMetadata → Handler Response
  post_snapshot id body = do
    request ← lift (parse_or_refuse body)
    result ← snapshot env id request
    pure (plain 201 (Content.one_image result))

  -- `GetApiV2InstancesInstanceIDConsoleoutput`
  unfoldable pub get_output_route : String → Option ℕ → Handler Response
  get_output_route id length = do
    result ← console_output env id length
    pure (plain 200 (Content.some_text result))

  -- `GetApiV2InstancesInstanceIDConsolesession`
  unfoldable pub get_session_route : String → Handler Response
  get_session_route id = do
    result ← console_session env id
    pure (plain 200 (Content.some_text result))

  -- `GetApiV2Clusters`
  unfoldable pub get_clusters_v2 : ListParams → Handler Response
  get_clusters_v2 params = do
    result ← ClustersV2.list_clusters env params
    pure (plain 200 (Content.some_clusters_v2 result))

  -- `PostApiV2Clusters`
  unfoldable pub post_clusters_v2 : Result ClusterV2Create → Handler Response
  post_clusters_v2 body = do
    request ← lift body
    result ← ClustersV2.create env request
    pure (plain 201 (Content.one_cluster_v2 result))

  -- `GetApiV2ClustersClusterID`
  unfoldable pub get_cluster_v2 : String → Handler Response
  get_cluster_v2 id = do
    result ← ClustersV2.get_cluster env id
    pure (plain 200 (Content.one_cluster_v2 result))

  -- `PutApiV2ClustersClusterID`
  unfoldable pub put_cluster_v2 : String → Result ClusterV2Update → Handler Response
  put_cluster_v2 id body = do
    request ← lift body
    result ← ClustersV2.update env id request
    pure (plain 202 (Content.one_cluster_v2 result))

  -- `DeleteApiV2ClustersClusterID`
  unfoldable pub delete_cluster_v2_route : String → Handler Response
  delete_cluster_v2_route id = ClustersV2.delete_cluster env id >> pure (plain 202 Content.nothing)
