-- ===== src/Instance/Client.antt =====
-- region.go: the instance's state and the calls of the region service.
use uni_compute.Base.{String, Option, none, some, List, [], ◌∷◌, ◌<>◌}
use uni_compute.Base.Dict.{lookup_or}
use uni_compute.Base.Result.{ok, err, transport}
use uni_compute.Base.State.{Comp, ◌>>=◌, pure, lift, get}
use uni_compute.External.Env.{Reply}
use uni_compute.External.RegionV2.{
  ServerV2Read, ServerV2Create, ServerV2Update, ServersParams, RequestV2, HistoryV2, EnvV2,
}
use uni_compute.Api.{ComputeInstance}
use uni_compute.Cluster.State.{expect, expect_gone}
use uni_compute.Instance.Generate.{instance_label}

-- The provisioner's instance, and the requests that it has sent.
pub record InstanceState : Type 0 where
  pub resource : ComputeInstance
  pub sent : HistoryV2

abbrev pub call : {A : Type 0} → RequestV2 → (HistoryV2 → Reply A) → Comp InstanceState (Reply A)
call request answer s = (ok (answer (request ∷ s.sent)), record s { sent = request ∷ s.sent })

abbrev first_server : List ServerV2Read → Option ServerV2Read
first_server [] = none
first_server (server ∷ _) = some server

module _ (env : EnvV2) where
  unfoldable pub get_region_client : Comp InstanceState (Unit {0})
  get_region_client s = elim (env.connect s.sent) [
    | none ↦ (ok tt, s)
    | some e ↦ (err (transport e), s)
  ]

  -- The parameters by which `getServer`, and `serverID` of the handler, find an instance's server.
  abbrev pub servers_params : ComputeInstance → ServersParams
  servers_params i = record {
    organization = lookup_or "" env.organization_label i.labels;
    project = lookup_or "" env.project_label i.labels;
    region = lookup_or "" env.region_label i.labels;
    network = lookup_or "" env.network_label i.labels;
    tag = instance_label <> "=" <> i.name;
  }

  -- `getServer`
  unfoldable pub get_server : Comp InstanceState (Option ServerV2Read)
  get_server = do
    s ← get
    reply ← call (RequestV2.list_servers (servers_params s.resource)) env.servers
    servers ← lift (expect 200 reply)
    pure (first_server servers)

  -- `createServer`
  unfoldable pub create_server : ServerV2Create → Comp InstanceState ServerV2Read
  create_server request = do
    reply ← call (RequestV2.create_server request) env.server
    lift (expect 201 reply)

  -- `updateServer`
  unfoldable pub update_server : String → ServerV2Update → Comp InstanceState ServerV2Read
  update_server id request = do
    reply ← call (RequestV2.update_server id request) env.server
    lift (expect 202 reply)

  -- `deleteServer`
  unfoldable pub delete_server : String → Comp InstanceState (Unit {0})
  delete_server id = do
    reply ← call (RequestV2.delete_server id) env.deletion
    lift (expect_gone reply)
