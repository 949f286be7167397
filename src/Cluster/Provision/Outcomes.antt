-- ===== src/Cluster/Provision/Outcomes.antt =====
-- How `Provision` and `Deprovision` end.
use uni_compute.Base.{
  ◌+◌, ◌≡◌, ◌≢◌, refl, String, Bool, true, false, ◌⊎◌, Option, none, ◌∷◌, count, All, arith,
}
use uni_compute.Base.Dict.{lookup, values}
use uni_compute.Base.Result.{Result, ok, err, panic, yielded}
use uni_compute.External.Env.{Env, Request, Reply, replied}
use uni_compute.External.Region.{IdentityRead}
use uni_compute.Status.Pools.{IsTagged}
use uni_compute.Status.Report.{Reports, update_cluster_status-Reports}
use uni_compute.Cluster.State.{State, scope}
use uni_compute.Cluster.Client.{
  get_region_client, get_identity, get_network, delete_identity, list_servers,
}
use uni_compute.Cluster.Provision.{
  OpenstackIdentityStatus, resource_api_version_label, get_openstack_identity_status, update_status,
  provision_resources, read_servers, provision, deprovision_resources, deprovision,
}

module _ (env : Env) (s : State) where
  -- A version 1 cluster without a network label panics as soon as its identity is ready, before its
  -- servers are read: the network is nil there, and its ID is read all the same.
  pub provision_without_network :
      {identity : IdentityRead}
      → lookup resource_api_version_label s.cluster.labels ≡ none
      → lookup env.network_label s.cluster.labels ≡ none
      → env.connect s.sent ≡ none
      → (get_identity env s).0 ≡ ok identity
      → provision env s
        ≡ (panic, record s { sent = Request.get_identity (scope env s.cluster) ∷ s.sent })
  unfolding provision get_region_client get_openstack_identity_status get_network get_identity
  provision_without_network v1 unlabelled connected ready = ground arith

abbrev pub is_release : Request → Bool
is_release (Request.delete_allocations _) = true
is_release _ = false

-- The identity service's answer to the deletion of the cluster's identity.
abbrev pub identity_reply : Env → State → Reply (Unit {0})
identity_reply env s = env.deletion (Request.delete_identity (scope env s.cluster) ∷ s.sent)

module _ (env : Env) where
  -- How a deletion ends that began in `s`, where the identity's deletion is asked for in `u`.
  abbrev pub Releases : State → State → Result (Unit {0}) × State → Type 0
  Releases s u (r, t) =
      ((count is_release t.sent ≡ count is_release s.sent) × (r ≢ ok tt))
      ⊎ ((count is_release t.sent ≡ count is_release s.sent + 1)
          × (identity_reply env u ≡ replied 404 tt))

  deprovision_resources_order :
      (u : State)
      → Releases u u (deprovision_resources env u)
        × ((identity_reply env u ≢ replied 202 tt)
            ⊎ ((deprovision_resources env u).0 ≡ err yielded))
  unfolding deprovision_resources delete_identity get_region_client
  deprovision_resources_order u = ground arith

  read_servers-releases :
      (s : State) → count is_release (read_servers env s).1.sent ≡ count is_release s.sent
  unfolding read_servers list_servers
  read_servers-releases s = ground arith

  get_region_client-state : (s : State) → (get_region_client env s).1 ≡ s
  unfolding get_region_client
  get_region_client-state s = ground arith

  -- Whatever the services answer, the deletion of a version 1 cluster releases the quota allocations
  -- at most once, before any success, and only after the region service has said, once the servers
  -- have been read, that the identity is gone. If the servers could be read, an identity whose
  -- deletion was accepted makes the run yield.
  pub deprovision_order :
      (s : State)
      → lookup resource_api_version_label s.cluster.labels ≡ none
      → let (r, t) = deprovision env s in
        let (read, u) = read_servers env s in
        Releases s u (r, t)
        × ((get_region_client env s ≢ (ok tt, s))
            ⊎ ((read ≢ ok tt) ⊎ ((identity_reply env u ≢ replied 202 tt) ⊎ (r ≡ err yielded))))
  unfolding deprovision update_status
  deprovision_order s v1 =
      rw (v1, deprovision)
        (ground (
          arith,
          get_region_client-state s,
          read_servers-releases s,
          deprovision_resources_order (read_servers env s).1,
        ))

  update_status-Reports :
      (key : Option String) (t : State)
      → All IsTagged (values t.servers)
      → Reports (values t.servers) (update_status env key t).cluster.status.workload_pools
  unfolding update_status
  update_status-Reports key t tagged =
      (update_cluster_status-Reports env.conditions
        (record (t.cluster) { status = record (t.cluster.status) { ssh_private_key = key } })
        (values t.servers) tagged).1

  -- Once the servers of a version 1 cluster have been read, the run ends as the reconcile ends, and
  -- however that is, by an error or a panic too, the status reports the server set that it left,
  -- with the servers that were created or deleted on the way.
  pub provision-Reports :
      (s : State) {status : OpenstackIdentityStatus} {s₁ s₂ : State}
      → lookup resource_api_version_label s.cluster.labels ≡ none
      → get_region_client env s ≡ (ok tt, s)
      → get_openstack_identity_status env s ≡ (ok status, s₁)
      → read_servers env s₁ ≡ (ok tt, s₂)
      → All IsTagged (values (provision_resources env status.network_id s₂).1.servers)
      → let (r, t) = provision_resources env status.network_id s₂ in
        ((provision env s).0 ≡ r)
        × Reports (values t.servers) (provision env s).1.cluster.status.workload_pools
  unfolding provision
  provision-Reports s {status} {s₁} {s₂} v1 connected ready read tagged =
      rw (v1, connected, ready, read, provision)
        (refl, update_status-Reports status.ssh_private_key _ tagged)
