-- ===== src/Cluster/Client.antt =====
-- region.go: the calls of the region service.
use uni_compute.Base.{String, none, some, Option, List, [], ◌∷◌, ◌<>◌, if◌then◌else◌, eqb}
use uni_compute.Base.Dict.{lookup, lookup_or}
use uni_compute.Base.Result.{Result, ok, err, transport, api_status, yielded, resource_dependency}
use uni_compute.Base.State.{Comp, ◌>>=◌, lift, get}
use uni_compute.External.Core.{ResourceProvisioningStatus}
use uni_compute.External.Region.{
  ServerRead, ServerWrite, SecurityGroupRead, SecurityGroupWrite, IdentityRead, NetworkRead,
}
use uni_compute.External.Env.{Env, Request, Reply, failed, replied}
use uni_compute.Api.{ComputeCluster}
use uni_compute.Cluster.State.{State, call, expect, expect_gone, scope}

-- What `getIdentity` and `getNetwork` do with the status of what they read.
abbrev pub when_ready : {A : Type 0} → ResourceProvisioningStatus → A → Result A
when_ready ResourceProvisioningStatus.provisioned a = ok a
when_ready ResourceProvisioningStatus.unknown a = err yielded
when_ready ResourceProvisioningStatus.pending a = err yielded
when_ready ResourceProvisioningStatus.provisioning a = err yielded
when_ready _ a = err resource_dependency

-- `deleteIdentity`, from the reply.
abbrev deleted_identity : Reply (Unit {0}) → Result (Unit {0})
deleted_identity (failed e) = err (transport e)
deleted_identity (replied status _) =
    if eqb status 202
    then err yielded
    else if eqb status 404
    then ok tt
    else err (api_status status)

module _ (env : Env) where
  -- `ClusterTagSelector`
  abbrev pub cluster_tag_selector : ComputeCluster → List String
  cluster_tag_selector cluster = (env.compute_cluster_label <> "=" <> cluster.name) ∷ []

  unfoldable pub get_region_client : Comp State (Unit {0})
  get_region_client s = elim (env.connect s.sent) [
    | none ↦ (ok tt, s)
    | some e ↦ (err (transport e), s)
  ]

  unfoldable pub get_identity : Comp State IdentityRead
  get_identity = do
    s ← get
    reply ← call (Request.get_identity (scope env s.cluster)) env.identity
    identity ← lift (expect 200 reply)
    lift (when_ready identity.provisioning_status identity)

  unfoldable pub delete_identity : Comp State (Unit {0})
  delete_identity = do
    s ← get
    reply ← call (Request.delete_identity (scope env s.cluster)) env.deletion
    lift (deleted_identity reply)

  get_network_by_id : String → Comp State (Option NetworkRead)
  get_network_by_id id = do
    s ← get
    reply ← call (Request.get_network (scope env s.cluster) id) env.network
    network ← lift (expect 200 reply)
    lift (when_ready network.provisioning_status (some network))

  -- `nil` where the cluster has no network label.
  unfoldable pub get_network : Comp State (Option NetworkRead)
  unfolding get_network_by_id
  get_network s = elim (lookup env.network_label s.cluster.labels) [
    | none ↦ (ok none, s)
    | some id ↦ get_network_by_id id s
  ]

  unfoldable pub list_servers : Comp State (List ServerRead)
  list_servers = do
    s ← get
    reply ←
        call
          (Request.list_servers (lookup_or "" env.organization_label s.cluster.labels)
            (cluster_tag_selector s.cluster))
          env.servers
    lift (expect 200 reply)

  unfoldable pub create_server : ServerWrite → Comp State ServerRead
  create_server request = do
    s ← get
    reply ← call (Request.create_server (scope env s.cluster) request) env.server
    lift (expect 201 reply)

  unfoldable pub update_server : String → ServerWrite → Comp State ServerRead
  update_server id request = do
    s ← get
    reply ← call (Request.update_server (scope env s.cluster) id request) env.server
    lift (expect 202 reply)

  unfoldable pub delete_server : String → Comp State (Unit {0})
  delete_server id = do
    s ← get
    reply ← call (Request.delete_server (scope env s.cluster) id) env.deletion
    lift (expect_gone reply)

  unfoldable pub list_security_groups : Comp State (List SecurityGroupRead)
  list_security_groups = do
    s ← get
    reply ←
        call
          (Request.list_security_groups (lookup_or "" env.organization_label s.cluster.labels)
            (cluster_tag_selector s.cluster))
          env.security_groups
    lift (expect 200 reply)

  unfoldable pub create_security_group : SecurityGroupWrite → Comp State SecurityGroupRead
  create_security_group request = do
    s ← get
    reply ← call (Request.create_security_group (scope env s.cluster) request) env.security_group
    lift (expect 201 reply)

  unfoldable pub update_security_group : String → SecurityGroupWrite → Comp State SecurityGroupRead
  update_security_group id request = do
    s ← get
    reply ← call (Request.update_security_group (scope env s.cluster) id request) env.security_group
    lift (expect 202 reply)

  unfoldable pub delete_security_group : String → Comp State (Unit {0})
  delete_security_group id = do
    s ← get
    reply ← call (Request.delete_security_group (scope env s.cluster) id) env.deletion
    lift (expect_gone reply)
