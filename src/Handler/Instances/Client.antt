-- ===== src/Handler/Instances/Client.antt =====
-- client.go of the instance handler: reads, listings, power actions, consoles and snapshots.

use uni_compute.Base.{
  ℕ, String, Bool, true, false, not, ◌||◌, ◌<>◌, Option, none, some, List, [], ◌∷◌, map,
  delete_func, if◌then◌else◌, string_eq,
}
use uni_compute.Base.Dict.{lookup_or}
use uni_compute.Base.Sort.{sort_by}
use uni_compute.Base.Result.{Result, ok, err, panic, not_found, transport, consistency}
use uni_compute.Base.State.{◌>>=◌, ◌>>◌, pure, lift}
use uni_compute.External.Core.{Tag, ResourceMetadata}
use uni_compute.External.Region.{InstanceLifecyclePhase, pending, running, stopping, stopped}
use uni_compute.External.RegionV2.{ServerV2Read, ServersParams}
use uni_compute.External.Catalog.{
  Image, ServerAction, Lookup, found, missing, broken, HandlerRequest,
}
use uni_compute.External.Handlers.{ApiEnv, Operation}
use uni_compute.Api.{ComputeInstance}
use uni_compute.OpenApi.{InstanceRead, ListParams}
use uni_compute.Cluster.State.{expect}
use uni_compute.Instance.Generate.{non_empty, instance_label}
use uni_compute.Handler.Client.{Handler, remove}
use uni_compute.Handler.Services.{ask, id_query, add_region_id_query, add_network_id_query}
use uni_compute.Handler.Instances.{convert_networking, snapshot_tags}

-- `ConvertUserData`. An empty slice is read from the custom resource as nil.
abbrev pub convert_user_data : List ℕ → Option (List ℕ)
convert_user_data = non_empty

-- `convertPowerState`
unfoldable pub show_power_state : Option InstanceLifecyclePhase → Option InstanceLifecyclePhase
show_power_state none = none
show_power_state (some pending) = some pending
show_power_state (some running) = some running
show_power_state (some stopping) = some stopping
show_power_state (some stopped) = some stopped

abbrev pub instances_endpoint : String
instances_endpoint = "compute:instances"

module _ (env : ApiEnv) where
  abbrev pub organization_of : ComputeInstance → String
  organization_of i = lookup_or "" env.metadata.organization_label i.labels

  abbrev pub project_of : ComputeInstance → String
  project_of i = lookup_or "" env.metadata.project_label i.labels

  abbrev pub region_of : ComputeInstance → String
  region_of i = lookup_or "" env.region_label i.labels

  abbrev pub network_of : ComputeInstance → String
  network_of i = lookup_or "" env.network_label i.labels

  -- `convert`
  unfoldable pub convert : ComputeInstance → InstanceRead
  convert i = record {
    name = i.name;
    tags = i.spec.tags;
    spec = record {
      flavor_id = i.spec.flavor_id;
      image_id = i.spec.image_id;
      networking = convert_networking i.spec.networking;
      user_data = convert_user_data i.spec.user_data;
    };
    status = record {
      network_id = network_of i;
      region_id = region_of i;
      power_state = show_power_state i.status.power_state;
      private_ip = i.status.private_ip;
      public_ip = i.status.public_ip;
    };
  }

  abbrev pub read_or_fail : Lookup ComputeInstance → Result ComputeInstance
  read_or_fail missing = err not_found
  read_or_fail (broken e) = err (transport e)
  read_or_fail (found i) = ok i

  abbrev pub allow : Operation → ComputeInstance → Result (Unit {0})
  allow operation i = env.allow instances_endpoint operation (organization_of i) (project_of i)

  -- `GetRaw`
  unfoldable pub get_raw : String → Handler ComputeInstance
  get_raw id = do
    answer ← ask (HandlerRequest.get_instance id) env.instance_read
    i ← lift (read_or_fail answer)
    lift (allow Operation.read i)
    pure i

  -- `Get`
  unfoldable pub get_instance : String → Handler InstanceRead
  get_instance id = do i ← get_raw id; pure (convert i)

  -- The filter of `List`: does the listing leave the instance out?
  abbrev pub is_hidden : List Tag → ComputeInstance → Bool
  is_hidden tags i =
      not (env.contains_all i.spec.tags tags)
      || (elim (allow Operation.read i) [ ok _ ↦ false | err _ ↦ true | panic ↦ true ])

  -- `List`
  unfoldable pub list_instances : ListParams → Handler (List InstanceRead)
  list_instances params = do
    scoped ← lift (env.add_scope [] (id_query params.organization_id) (id_query params.project_id))
    regional ← lift (add_region_id_query env scoped params.region_id)
    selector ← lift (add_network_id_query env regional params.network_id)
    answer ← ask (HandlerRequest.list_instances selector) env.instances
    all ← lift answer
    tags ← lift (env.decode_tags params.tag)
    pure (map convert (sort_by (λ i. i.name) (delete_func (is_hidden tags) all)))

  -- The parameters by which `serverID` finds the server of an instance.
  abbrev pub search_params : ComputeInstance → ServersParams
  search_params i = record {
    organization = organization_of i;
    project = project_of i;
    region = region_of i;
    network = network_of i;
    tag = instance_label <> "=" <> i.name;
  }

  abbrev pub the_one : List ServerV2Read → Result String
  the_one [] = err consistency
  the_one (server ∷ []) = ok server.id
  the_one (_ ∷ _ ∷ _) = err consistency

  -- `serverID`
  unfoldable pub server_id : ComputeInstance → Handler String
  server_id i = do
    reply ← ask (HandlerRequest.list_servers_v2 (search_params i)) env.servers_v2
    servers ← lift (expect 200 reply)
    lift (the_one servers)

  -- `GetRaw` and `serverID`, with which the operations on a server begin.
  unfoldable pub server_of : String → Handler String
  server_of id = do i ← get_raw id; server_id i

  -- `Start` and `Stop`, and the two kinds of `Reboot`.
  unfoldable pub act_on_instance : ServerAction → String → Handler (Unit {0})
  act_on_instance action id = do
    server ← server_of id
    reply ← ask (HandlerRequest.act_on_server_v2 action server) env.action
    lift (expect 202 reply)

  -- `Reboot`
  unfoldable pub reboot : String → Option Bool → Handler (Unit {0})
  reboot id none = act_on_instance ServerAction.soft_reboot id
  reboot id (some hard) =
      act_on_instance (if hard then ServerAction.hard_reboot else ServerAction.soft_reboot) id

  -- `SSHKey`
  unfoldable pub ssh_key : String → Handler String
  ssh_key id = do
    server ← server_of id
    reply ← ask (HandlerRequest.get_ssh_key server) env.text
    lift (expect 200 reply)

  -- `ConsoleOutput`
  unfoldable pub console_output : String → Option ℕ → Handler String
  console_output id length = do
    server ← server_of id
    reply ← ask (HandlerRequest.get_output_v2 server length) env.text
    lift (expect 200 reply)

  -- `ConsoleSession`
  unfoldable pub console_session : String → Handler String
  console_session id = do
    server ← server_of id
    reply ← ask (HandlerRequest.get_session_v2 server) env.text
    lift (expect 200 reply)

  -- `Snapshot`
  unfoldable pub snapshot : String → ResourceMetadata → Handler Image
  snapshot id request = do
    server ← server_of id
    reply ←
        ask
          (HandlerRequest.create_snapshot server
            (record request { tags = snapshot_tags id request.tags }))
          env.snapshot
    lift (expect 201 reply)

  -- `Delete`
  unfoldable pub delete_instance : String → Handler (Unit {0})
  delete_instance id = do
    i ← get_raw id
    if i.deleting
        then pure tt
        else (lift (allow Operation.delete i)
            >> remove env.base (HandlerRequest.delete_instance i.name))
