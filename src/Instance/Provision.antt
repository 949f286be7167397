-- ===== src/Instance/Provision.antt =====
-- provisioner.go: `createOrUpdateServer`, `Provision` and `Deprovision` of an instance.
use uni_compute.Base.{Option, none, some, ◌∷◌, ◌==◌, if◌then◌else◌}
use uni_compute.Base.Result.{yielded, Result, ok, err, panic, transport}
use uni_compute.Base.State.{Comp, ◌>>=◌, ◌>>◌, fail, lift, modify}
use uni_compute.External.Core.{ResourceProvisioningStatus, healthy}
use uni_compute.External.RegionV2.{
  ServerV2Read, ServerV2Update, RequestV2, EnvV2, server_v2_spec_eq,
}
use uni_compute.Api.{ComputeInstance}
use uni_compute.Status.{convert_health_status_condition}
use uni_compute.Instance.Generate.{
  generate_server_create_request, generate_server_update_request, needs_rebuild,
  convert_power_state,
}
use uni_compute.Instance.Client.{
  InstanceState, get_region_client, get_server, create_server, update_server, delete_server,
}

-- `provisioners.ErrYield` in place of whatever error a deletion had.
abbrev pub yield_on_error : Result (Unit {0}) × InstanceState → Result (Unit {0}) × InstanceState
yield_on_error (ok a, t) = (ok a, t)
yield_on_error (err e, t) = (err yielded, t)
yield_on_error (panic, t) = (panic, t)

-- How `Provision` ends, by the status of the server.
abbrev pub unless_provisioned : ResourceProvisioningStatus → Result (Unit {0})
unless_provisioned ResourceProvisioningStatus.provisioned = ok tt
unless_provisioned _ = err yielded

module _ (env : EnvV2) where
  -- The part of `createOrUpdateServer` for a server that differs from the request.
  unfoldable pub rebuild_or_update : ServerV2Read → ServerV2Update → Comp InstanceState ServerV2Read
  rebuild_or_update server request =
      let update = update_server env server.id request in
      if needs_rebuild server.spec request.spec
      then ((λ s. yield_on_error (delete_server env server.id s)) >>= λ _. update)
      else update

  -- `createOrUpdateServer`
  unfoldable pub create_or_update_server : Option ServerV2Read → Comp InstanceState ServerV2Read
  create_or_update_server none s =
      create_server env (generate_server_create_request env s.resource) s
  create_or_update_server (some server) s =
      let request = generate_server_update_request env s.resource in
      if server.spec == request.spec then (ok server, s) else rebuild_or_update server request s

  -- What `Provision` writes into the instance's status.
  unfoldable pub store_status : ServerV2Read → ComputeInstance → ComputeInstance
  store_status server i = record i {
    status = record (i.status) {
      conditions =
          env.conditions.update i.status.conditions
            (convert_health_status_condition healthy server.health_status);
      private_ip = server.private_ip;
      public_ip = server.public_ip;
      power_state = convert_power_state server.power_state;
    };
  }

  -- `Provision`
  unfoldable pub provision : Comp InstanceState (Unit {0})
  provision = do
    get_region_client env
    found ← get_server env
    server ← create_or_update_server found
    modify λ s. record s { resource = store_status server s.resource }
    lift (unless_provisioned server.provisioning_status)

  -- `NewAllocations(cli, api).Delete`
  abbrev pub delete_allocations : Comp InstanceState (Unit {0})
  delete_allocations s =
      let t = record s { sent = RequestV2.delete_allocations s.resource.name ∷ s.sent } in
      elim (env.release t.sent) [ none ↦ (ok tt, t) | some e ↦ (err (transport e), t) ]

  -- The rest of `Deprovision`, once the server has been looked for.
  unfoldable pub delete_or_release : Option ServerV2Read → Comp InstanceState (Unit {0})
  delete_or_release (some server) = do delete_server env server.id; fail yielded
  delete_or_release none = do get_region_client env; delete_allocations

  -- `Deprovision`
  unfoldable pub deprovision : Comp InstanceState (Unit {0})
  deprovision = do get_region_client env; found ← get_server env; delete_or_release found
