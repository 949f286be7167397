-- ===== src/Handler/Convert/Health.antt =====
-- What the API shows of a server that the region service reported.
use uni_compute.Base.{◌≡◌, none, some, [], arith}
use uni_compute.External.Core.{
  AreLawful, Condition, available, healthy, condition_type_eq, Conditions,
  ResourceProvisioningStatus, ResourceHealthStatus,
}
use uni_compute.External.Region.{ServerRead, pending}
use uni_compute.Status.{
  machine_status, convert_provisioning_status_condition, convert_health_status_condition,
}
use uni_compute.Handler.Convert.{
  convert_machine_status, convert_provisioning_status, convert_health_status, provisioning_of,
  health_of,
}

-- The provisioning status that is shown: that of the server, where pending is shown as unknown.
abbrev pub shown_provisioning : ResourceProvisioningStatus → ResourceProvisioningStatus
shown_provisioning ResourceProvisioningStatus.pending = ResourceProvisioningStatus.unknown
shown_provisioning status = status

-- The health that is shown: that of the server, where an error is shown as unknown.
abbrev pub shown_health : ResourceHealthStatus → ResourceHealthStatus
shown_health ResourceHealthStatus.error = ResourceHealthStatus.unknown
shown_health status = status

provisioning_of-condition :
    (s : ResourceProvisioningStatus)
    → provisioning_of (some (convert_provisioning_status_condition available s))
      ≡ shown_provisioning s
unfolding convert_provisioning_status convert_provisioning_status_condition
provisioning_of-condition s = ground arith

health_of-condition :
    (s : ResourceHealthStatus)
    → health_of (some (convert_health_status_condition healthy s)) ≡ shown_health s
unfolding convert_health_status convert_health_status_condition
health_of-condition s = ground arith

condition_types :
    (p : ResourceProvisioningStatus) (s : ResourceHealthStatus)
    → ((convert_provisioning_status_condition available p).type ≡ available)
      × ((convert_health_status_condition healthy s).type ≡ healthy)
unfolding convert_provisioning_status_condition convert_health_status_condition
condition_types p s = ground arith

module _ (c : Conditions) (lawful : AreLawful c) where
  reads :
      (p q : Condition)
      → p.type ≡ available
      → q.type ≡ healthy
      → (c.read (c.update (c.update [] p) q) available ≡ some p)
        × (c.read (c.update (c.update [] p) q) healthy ≡ some q)
  reads p q e f = ground (
    arith,
    lawful.read-update (c.update [] p) q available,
    lawful.read-update (c.update [] p) q healthy,
    lawful.read-update [] p available,
  )

  -- A server's record, stored as a machine and converted for the API, keeps its identity, addresses
  -- and phase, where no phase is shown as pending; its provisioning status, where pending is shown
  -- as unknown; and its health, where an error is shown as unknown.
  pub convert_machine_status-machine_status :
      (server : ServerRead)
      → convert_machine_status c (machine_status c server) ≡ record {
        id = server.id;
        hostname = server.name;
        flavor_id = server.spec.flavor_id;
        image_id = server.spec.image_id;
        private_ip = server.private_ip;
        public_ip = server.public_ip;
        status = elim server.phase [ none ↦ pending | some phase ↦ phase ];
        provisioning_status = shown_provisioning server.provisioning_status;
        health_status = shown_health server.health_status;
      }
  unfolding convert_machine_status machine_status
  convert_machine_status-machine_status server =
      let p = convert_provisioning_status_condition available server.provisioning_status in
      let q = convert_health_status_condition healthy server.health_status in
      let types = condition_types server.provisioning_status server.health_status in
      let stored = reads p q types.0 types.1 in
      rw
        (
          stored.0,
          stored.1,
          provisioning_of-condition server.provisioning_status,
          health_of-condition server.health_status,
        )
        (ground arith)
