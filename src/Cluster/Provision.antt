-- ===== src/Cluster/Provision.antt =====
-- provisioner.go: `Provision` and `Deprovision`.
pub mod Outcomes
use uni_compute.Base.{ℕ, String, Bool, true, false, Option, none, some, List, [], ◌∷◌}
use uni_compute.Base.Dict.{Dict, lookup, values}
use uni_compute.Base.Result.{Error, Result, ok, err, panic, transport}
use uni_compute.Base.State.{Comp, ◌>>=◌, ◌>>◌, pure, lift, get, modify}
use uni_compute.External.Env.{Env, Request}
use uni_compute.External.Region.{ServerRead, IdentityRead, NetworkRead}
use uni_compute.Api.{ComputeCluster}
use uni_compute.Status.{update_cluster_status}
use uni_compute.Cluster.State.{State, call}
use uni_compute.Cluster.Client.{
  get_region_client, get_identity, get_network, list_servers, delete_identity,
}
use uni_compute.Cluster.ServerSet.{new_server_set}
use uni_compute.Cluster.Reconcile.{reconcile_servers}
use uni_compute.Cluster.SecurityGroups.{new_security_group_set, reconcile_security_groups}

abbrev pub resource_api_version_label : String
resource_api_version_label = "resource.unikorn-cloud.org/api-version"

-- `openstackIdentityStatus`
pub record OpenstackIdentityStatus : Type 0 where
  pub ssh_private_key : Option String
  pub network_id : String

-- The fields that are read through `identity.Spec.Openstack` and `network`, which may be nil.
abbrev pub collate : IdentityRead → Option NetworkRead → Result OpenstackIdentityStatus
collate identity none = panic
collate identity (some network) = elim identity.openstack [
  | none ↦ panic
  | some key ↦ ok (record { ssh_private_key = key; network_id = network.id })
]

-- Sets the cluster of the state and drops how the update ended: its error is only logged.
abbrev keep_status : State → Result (Unit {0}) × ComputeCluster → State
keep_status s (_, cluster) = record s { cluster = cluster }

module _ (env : Env) where
  -- `getOpenstackIdentityStatus`
  unfoldable pub get_openstack_identity_status : Comp State OpenstackIdentityStatus
  get_openstack_identity_status = do
    identity ← get_identity env
    network ← get_network env
    lift (collate identity network)

  -- `updateStatus`
  unfoldable pub update_status : Option String → State → State
  update_status key s =
      let cluster = record (s.cluster) {
        status = record (s.cluster.status) { ssh_private_key = key };
      } in
      keep_status s (update_cluster_status env.conditions cluster (values s.servers))

  -- `defer p.updateStatus(…)`: it runs however the rest ends.
  abbrev pub with_status : {A : Type 0} → Option String → Comp State A → Comp State A
  with_status key body s = let (r, t) = body s in (r, update_status key t)

  -- What `Provision` does once the status update is deferred.
  unfoldable pub provision_resources : String → Comp State (Unit {0})
  provision_resources network_id = do
    groups ← new_security_group_set env
    s ← get
    set ← reconcile_security_groups env s.cluster groups
    reconcile_servers env network_id set

  -- Reads the servers into the provisioner's server set.
  unfoldable pub read_servers : Comp State (Unit {0})
  read_servers = do
    servers ← list_servers env
    set ← lift (new_server_set servers)
    modify λ s. record s { servers = set }

  provision_v1 : Comp State (Unit {0})
  provision_v1 = do
    get_region_client env
    status ← get_openstack_identity_status
    read_servers
    with_status status.ssh_private_key (provision_resources status.network_id)

  -- `Provision`. Clusters of a newer API version are left alone.
  unfoldable pub provision : Comp State (Unit {0})
  unfolding provision_v1
  provision s = elim (lookup resource_api_version_label s.cluster.labels) [
    | some _ ↦ (ok tt, s)
    | none ↦ provision_v1 s
  ]

  -- `NewAllocations(cli, api).Delete`
  abbrev pub delete_allocations : Comp State (Unit {0})
  delete_allocations s =
      let t = record s { sent = Request.delete_allocations s.cluster.name ∷ s.sent } in
      elim (env.update t.sent) [ none ↦ (ok tt, t) | some e ↦ (err (transport e), t) ]

  unfoldable pub deprovision_resources : Comp State (Unit {0})
  deprovision_resources = do delete_identity env; get_region_client env; delete_allocations

  deprovision_v1 : Comp State (Unit {0})
  deprovision_v1 = do get_region_client env; read_servers; with_status none deprovision_resources

  -- `Deprovision`
  unfoldable pub deprovision : Comp State (Unit {0})
  unfolding deprovision_v1
  deprovision s = elim (lookup resource_api_version_label s.cluster.labels) [
    | some _ ↦ (ok tt, s)
    | none ↦ deprovision_v1 s
  ]
