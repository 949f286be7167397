-- ===== src/Instance/Outcomes.antt =====
-- What the instance controller sends, and how its runs end.
use uni_compute.Base.{
  ◌≡◌, ◌≢◌, ◌∙◌, sym, ap, Bool, true, false, ◌⊎◌, Option, none, some, [], ◌∷◌, ◌++◌, ◌&&◌, ◌==◌,
  string_eq, if◌then◌else◌, arith, List, ◌<>◌,
}
use uni_compute.Base.Result.{Result, ok}
use uni_compute.Base.State.{lift, bind-eq-ok}
use uni_compute.Base.Dict.{lookup_or}
use uni_compute.External.Env.{failed, replied}
use uni_compute.Status.Report.{health_condition, convert_health_status_condition-healthy}
use uni_compute.External.Core.{ResourceProvisioningStatus}
use uni_compute.External.RegionV2.{ServerV2Read, RequestV2, HistoryV2, EnvV2, server_v2_spec_eq}
use uni_compute.Api.{ComputeInstance}
use uni_compute.Instance.Generate.{
  generate_server_spec, generate_server_create_request, generate_server_update_request,
  needs_rebuild, convert_power_state, instance_label,
}
use uni_compute.Instance.Client.{
  InstanceState, get_region_client, get_server, create_server, update_server, delete_server,
}
use uni_compute.Instance.Provision.{
  rebuild_or_update, create_or_update_server, store_status, unless_provisioned, provision,
}

abbrev pub is_ok : Result (Unit {0}) → Bool
is_ok (ok _) = true
is_ok _ = false

-- The requests by which an instance is brought to a specification, the newest first. `accepted`
-- says whether the region service takes the deletion.
abbrev pub asked : EnvV2 → ComputeInstance → Bool → Option ServerV2Read → HistoryV2
asked env i accepted none = RequestV2.create_server (generate_server_create_request env i) ∷ []
asked env i accepted (some server) =
    let wanted = generate_server_spec i in
    let update = RequestV2.update_server server.id (generate_server_update_request env i) in
    let delete = RequestV2.delete_server server.id in
    if server.spec == wanted
    then []
    else if server.spec.flavor_id == wanted.flavor_id && server.spec.image_id == wanted.image_id
    then update ∷ []
    else if accepted
    then update ∷ delete ∷ []
    else delete ∷ []

-- Does the region service take the deletion of the server that was found?
abbrev pub accepts : EnvV2 → InstanceState → Option ServerV2Read → Bool
accepts env s none = true
accepts env s (some server) = is_ok (delete_server env server.id s).0

module _ (env : EnvV2) (s : InstanceState) where
  -- An instance without a server asks for one creation. A server with the instance's specification
  -- is left alone; one of the same flavor and image is updated by one request; any other is
  -- deleted, and updated too if the deletion was accepted. No other request is sent.
  pub create_or_update_server_lem :
      (found : Option ServerV2Read)
      → (create_or_update_server env found s).1.sent
        ≡ asked env s.resource (accepts env s found) found ++ s.sent
  unfolding create_or_update_server create_server generate_server_update_request rebuild_or_update
      update_server delete_server needs_rebuild
  create_or_update_server_lem none = ground arith
  create_or_update_server_lem (some server) = ground arith

  get_server-resource : (get_server env s).1.resource ≡ s.resource
  unfolding get_server
  get_server-resource = ground arith

  create_or_update_server-resource :
      (found : Option ServerV2Read) → (create_or_update_server env found s).1.resource ≡ s.resource
  unfolding create_or_update_server create_server rebuild_or_update update_server delete_server
  create_or_update_server-resource none = ground arith
  create_or_update_server-resource (some server) = ground arith

abbrev pub is_release : RequestV2 → Bool
is_release (RequestV2.delete_allocations _) = true
is_release _ = false

abbrev pub is_deletion : RequestV2 → Bool
is_deletion (RequestV2.delete_server _) = true
is_deletion _ = false

abbrev pub first : List ServerV2Read → Option ServerV2Read
first [] = none
first (server ∷ _) = some server

-- The query for the server of an instance.
abbrev pub listing : EnvV2 → ComputeInstance → RequestV2
listing env i = RequestV2.list_servers (record {
  organization = lookup_or "" env.organization_label i.labels;
  project = lookup_or "" env.project_label i.labels;
  region = lookup_or "" env.region_label i.labels;
  network = lookup_or "" env.network_label i.labels;
  tag = instance_label <> "=" <> i.name;
})

-- The server is the one that was found, and nothing was sent; or, where none was found, the one
-- that the region service says it has created; or the one that it says it has updated.
abbrev pub IsReported : EnvV2 → Option ServerV2Read → ServerV2Read → HistoryV2 → HistoryV2 → Type 0
IsReported env found server before after =
    ((found ≡ some server) × (after ≡ before))
    ⊎ (((found ≡ none) × (env.server after ≡ replied 201 server))
        ⊎ ((found ≢ none) × (env.server after ≡ replied 202 server)))

-- The instance whose status shows that server, and which is the same in all else.
abbrev pub showing : EnvV2 → ServerV2Read → ComputeInstance → ComputeInstance
showing env server i = record i {
  status = record (i.status) {
    conditions = env.conditions.update i.status.conditions (health_condition server.health_status);
    private_ip = server.private_ip;
    public_ip = server.public_ip;
    power_state = server.power_state;
  };
}

-- From `s` to `t`, a run has asked for the servers of the instance and has one from the answers
-- that is provisioned. The instance has changed in its status alone, which shows that server.
pub record Provisions (env : EnvV2) (s t : InstanceState) : Type 0 where
  pub all : List ServerV2Read
  pub server : ServerV2Read
  pub listed : env.servers (listing env s.resource ∷ s.sent) ≡ replied 200 all
  pub reported : IsReported env (first all) server (listing env s.resource ∷ s.sent) t.sent
  pub ready : server.provisioning_status ≡ ResourceProvisioningStatus.provisioned
  pub shown : t.resource ≡ showing env server s.resource

module _ (env : EnvV2) where
  get_region_client-state : (s : InstanceState) → (get_region_client env s).1 ≡ s
  unfolding get_region_client
  get_region_client-state s = ground arith

  -- A server that was created or updated is what the region service answered to the last request;
  -- any other is the one that was found, and nothing was sent.
  create_or_update_server-IsReported :
      (found : Option ServerV2Read) (u : InstanceState) {server : ServerV2Read} {t : InstanceState}
      → create_or_update_server env found u ≡ (ok server, t)
      → IsReported env found server u.sent t.sent
  unfolding create_or_update_server create_server rebuild_or_update update_server delete_server
  create_or_update_server-IsReported none u h = ground arith
  create_or_update_server-IsReported (some found) u h = ground arith

  -- What the region service lists for the instance.
  abbrev listed_for : InstanceState → List ServerV2Read
  listed_for u = elim (env.servers (listing env u.resource ∷ u.sent)) [
    | failed _ ↦ []
    | replied _ all ↦ all
  ]

  get_server-listed :
      (u : InstanceState) {found : Option ServerV2Read} {t : InstanceState}
      → get_server env u ≡ (ok found, t)
      → (env.servers (listing env u.resource ∷ u.sent) ≡ replied 200 (listed_for u))
        × (found ≡ first (listed_for u))
        × (t ≡ record u { sent = listing env u.resource ∷ u.sent })
  unfolding get_server
  get_server-listed u h = ground arith

  -- The end of `Provision`, from the state in which the server is known.
  finish-ok :
      (server : ServerV2Read) (u : InstanceState) {t : InstanceState}
      → (lift
          (unless_provisioned server.provisioning_status)
          (record u { resource = store_status env server u.resource }))
        ≡ (ok tt, t)
      → (server.provisioning_status ≡ ResourceProvisioningStatus.provisioned)
        × (t.resource ≡ showing env server u.resource)
        × (t.sent ≡ u.sent)
  unfolding store_status convert_power_state
  finish-ok server u h =
      ground (arith, convert_health_status_condition-healthy server.health_status)

  Provisions-steps :
      (s : InstanceState) {found : Option ServerV2Read} {server : ServerV2Read}
      {u v t : InstanceState}
      → get_server env s ≡ (ok found, u)
      → create_or_update_server env found u ≡ (ok server, v)
      → (lift
          (unless_provisioned server.provisioning_status)
          (record v { resource = store_status env server v.resource }))
        ≡ (ok tt, t)
      → Provisions env s t
  Provisions-steps s {found} {server} {u} {v} found_is done end =
      let (listed, is_first, sent) = get_server-listed s found_is in
      let (ready, shown, last) = finish-ok server v end in
      let kept =
        sym (ap (λ p. p.1.resource) done)
        ∙ create_or_update_server-resource env u found
        ∙ ap (λ w. w.resource) sent in
      let reported = create_or_update_server-IsReported found u done in
      record {
        all = listed_for s;
        server = server;
        listed = listed;
        reported = rw (sym is_first, ap (λ w. w.sent) (sym sent), last) reported;
        ready = ready;
        shown = shown ∙ ap (showing env server) kept;
      }

  -- A run that succeeds has a server that is provisioned: the first that the region service listed
  -- for the instance, or the one that it answered to the creation or the update that was sent last.
  -- The instance differs from the one before in its status alone, which shows the addresses, the
  -- power state and the health of that server.
  pub provision-ok :
      (s : InstanceState) {t : InstanceState} → provision env s ≡ (ok tt, t) → Provisions env s t
  unfolding provision
  provision-ok s {t} h =
      let (_, connected, h₁) = bind-eq-ok (get_region_client env s) _ h in
      let run = rw (get_region_client-state s) at h₁ in
      let (found, found_is, h₂) = bind-eq-ok (get_server env s) _ run in
      let (server, done, h₃) = bind-eq-ok (create_or_update_server env found _) _ h₂ in
      Provisions-steps s found_is done h₃
