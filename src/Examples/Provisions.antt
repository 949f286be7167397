-- ===== src/Examples/Provisions.antt =====
-- Whole runs of the cluster provisioner on the test cluster.
use uni_compute.Base.{◌≡◌, ◌≢◌, ◌⊎◌, refl, none, some, [], ◌∷◌, All, string_eq}
use uni_compute.Base.Dict.{insert, values, lookup}
use uni_compute.Base.Result.{ok, err, panic, yielded}
use uni_compute.External.Core.{ResourceProvisioningStatus}
use uni_compute.External.Region.{IdentityRead}
use uni_compute.External.Env.{Env, Request, failed, replied}
use uni_compute.Status.{get_workload_pool_tag}
use uni_compute.Status.Pools.{IsTagged}
use uni_compute.Status.Report.{Reports}
use uni_compute.Cluster.State.{State, scope}
use uni_compute.Cluster.Client.{
  list_security_groups, list_servers, get_network, get_region_client, get_identity,
}
use uni_compute.Cluster.ServerSet.{add, add_servers, new_server_set}
use uni_compute.Cluster.SecurityGroups.{new_security_group_set}
use uni_compute.Cluster.Provision.{
  OpenstackIdentityStatus, resource_api_version_label, get_openstack_identity_status,
  provision_resources, read_servers, provision, deprovision,
}
use uni_compute.Cluster.Provision.Outcomes.{
  provision_without_network, Releases, deprovision_order, provision-Reports, identity_reply,
}
use uni_compute.Examples.Data.{cluster, env, start}

abbrev unlabelled : State
unlabelled = record start { cluster = record cluster { labels = [] } }

unlabelled_version : lookup resource_api_version_label unlabelled.cluster.labels ≡ none
unfolding lookup
unlabelled_version = refl

unlabelled_network : lookup env.network_label unlabelled.cluster.labels ≡ none
unfolding lookup
unlabelled_network = refl

abbrev ready : IdentityRead
ready = record {
  id = "identity";
  provisioning_status = ResourceProvisioningStatus.provisioned;
  openstack = some (some "key");
}

identity_ready : (get_identity env unlabelled).0 ≡ ok ready
unfolding get_identity
identity_ready = refl

provision_without_network_example : provision env unlabelled ≡ (
  panic,
  record unlabelled {
    sent = Request.get_identity (scope env unlabelled.cluster) ∷ unlabelled.sent;
  },
)
provision_without_network_example =
    provision_without_network env unlabelled unlabelled_version unlabelled_network refl
      identity_ready

start_version : lookup resource_api_version_label start.cluster.labels ≡ none
unfolding lookup string_eq
start_version = refl

deprovision_order_example :
    let (r, t) = deprovision env start in
    let (read, u) = read_servers env start in
    Releases env start u (r, t)
    × ((get_region_client env start ≢ (ok tt, start))
        ⊎ ((read ≢ ok tt) ⊎ ((identity_reply env u ≢ replied 202 tt) ⊎ (r ≡ err yielded))))
deprovision_order_example = deprovision_order env start start_version

-- The security groups cannot be read, so that the run fails once the servers have been.
abbrev offline : Env
offline = record env { security_groups = λ _. failed 1 }

-- The states in which the test cluster's identity and servers have been read.
abbrev identified : State
identified = (get_openstack_identity_status offline start).1

abbrev servers_read : State
servers_read = (read_servers offline identified).1

start_connects : get_region_client offline start ≡ (ok tt, start)
unfolding get_region_client
start_connects = refl

abbrev identity_status : OpenstackIdentityStatus
identity_status = record { ssh_private_key = some "key"; network_id = "network" }

identity_status_read :
    get_openstack_identity_status offline start ≡ (ok identity_status, identified)
unfolding get_openstack_identity_status string_eq get_identity get_network lookup
identity_status_read = refl

servers_are_read : read_servers offline identified ≡ (ok tt, servers_read)
unfolding read_servers get_openstack_identity_status string_eq list_servers new_server_set
    add_servers add lookup insert
servers_are_read = refl

left-IsTagged :
    All IsTagged
      (values (provision_resources offline identity_status.network_id servers_read).1.servers)
unfolding provision_resources read_servers get_openstack_identity_status string_eq
    new_security_group_set list_security_groups list_servers new_server_set add_servers add lookup
    insert get_workload_pool_tag
left-IsTagged = (("web", refl), (("web", refl), tt))

provision-Reports_example :
    let (r, t) = provision_resources offline identity_status.network_id servers_read in
    ((provision offline start).0 ≡ r)
    × Reports (values t.servers) (provision offline start).1.cluster.status.workload_pools
provision-Reports_example =
    provision-Reports offline start start_version start_connects identity_status_read
      servers_are_read left-IsTagged
