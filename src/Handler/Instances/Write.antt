-- ===== src/Handler/Instances/Write.antt =====
-- client.go of the instance handler: the creation and the update of an instance, with their sagas.
use uni_compute.Base.{
  String, Bool, false, Option, none, some, List, [], ◌∷◌, any, length, if◌then◌else◌, ◌==◌,
  string_eq,
}
use uni_compute.Base.Dict.{lookup_or, insert}
use uni_compute.Base.Result.{Result, ok, err, panic, conflict, invalid_request}
use uni_compute.Base.State.{Comp, ◌>>=◌, ◌>>◌, pure, fail, lift, get}
use uni_compute.External.Core.{ObjectMeta}
use uni_compute.External.Catalog.{Flavor, Image, among, Selector, HandlerRequest, HandlerHistory}
use uni_compute.External.Handlers.{ApiEnv, Operation, Action, NetworkV2Read}
use uni_compute.Api.{ComputeInstance, ComputeInstanceNetworking}
use uni_compute.Api.Accessors.{public_ip_enabled}
use uni_compute.OpenApi.{InstanceNetworking, InstanceCreate, InstanceUpdate, InstanceRead}
use uni_compute.Handler.Client.{Handler, flavors, images, write}
use uni_compute.Handler.Services.{ask, inject_user_principal, get_network, get_security_group}
use uni_compute.Handler.Instances.{
  list_or_nil, generate_networking, get_flavor, get_image, validate, generate_allocation,
}
use uni_compute.Handler.Instances.Client.{
  instances_endpoint, organization_of, project_of, region_of, network_of, convert, allow, get_raw,
}

-- `convertCreateToUpdateRequest`: through JSON, the fields that both have.
abbrev pub convert_create_to_update_request : InstanceCreate → InstanceUpdate
convert_create_to_update_request request = record {
  metadata = request.metadata;
  spec = record {
    flavor_id = request.spec.flavor_id;
    image_id = request.spec.image_id;
    networking = request.spec.networking;
    user_data = request.spec.user_data;
  };
}

-- `createSaga` and `updateSaga`: the resource that the actions share, and what was sent.
pub record SagaState : Type 0 where
  pub resource : ComputeInstance
  pub sent : HandlerHistory

abbrev on_sent : Handler (Unit {0}) → Comp SagaState (Unit {0})
on_sent m s = let (r, h) = m s.sent in (r, record s { sent = h })

module _ (env : ApiEnv) where
  -- `getAndValidateFlavorAndImage`
  unfoldable pub check_flavor_and_image :
      String → String → String → String → Handler (Flavor × Image)
  check_flavor_and_image organization region flavor_id image_id = do
    offered ← flavors env.base organization region
    flavor ← lift (get_flavor offered flavor_id)
    shown ← images env.base organization region
    image ← lift (get_image shown image_id)
    lift (validate flavor image)

  -- The loop of `validateSecurityGroups`.
  unfoldable pub check_groups : List String → Handler (Unit {0})
  check_groups [] = pure tt
  check_groups (id ∷ ids) = get_security_group env id >> check_groups ids

  -- `validateSecurityGroups`
  unfoldable pub validate_security_groups : Option InstanceNetworking → Handler (Unit {0})
  validate_security_groups none = pure tt
  validate_security_groups (some n) = check_groups (list_or_nil n.security_groups)

  abbrev pub has_name : String → ComputeInstance → Bool
  has_name name i = lookup_or "" env.name_label i.labels == name

  abbrev pub on_network : String → String → String → Selector
  on_network organization project network =
      among env.metadata.organization_label (organization ∷ [])
      ∷ among env.metadata.project_label (project ∷ [])
      ∷ among env.network_label (network ∷ [])
      ∷ []

  -- `isInstanceNameInUse`
  unfoldable pub is_instance_name_in_use : String → String → String → String → Handler (Unit {0})
  is_instance_name_in_use organization project network name = do
    answer ←
        ask (HandlerRequest.list_instances (on_network organization project network)) env.instances
    all ← lift answer
    if any (has_name name) all then fail conflict else pure tt

  -- The metadata that `generate` builds.
  abbrev pub build_metadata :
      HandlerHistory → InstanceUpdate → String → String → String → String → ObjectMeta
  build_metadata h request organization project region network =
      let m = env.metadata in
      m.with_label env.network_label network (
        m.with_label env.region_label region (
          m.with_project project (
            m.with_organization organization
              (m.new_object (length h) request.metadata env.namespace))))

  abbrev pub build :
      InstanceUpdate → Option ComputeInstanceNetworking → ObjectMeta → ComputeInstance
  build request networking meta = record {
    name = meta.name;
    labels = meta.labels;
    annotations = meta.annotations;
    deleting = false;
    spec = record {
      flavor_id = request.spec.flavor_id;
      image_id = request.spec.image_id;
      pause = false;
      tags = env.metadata.generate_tag_list request.metadata.tags;
      networking = networking;
      user_data = list_or_nil request.spec.user_data;
    };
    status = record { private_ip = none; public_ip = none; power_state = none; conditions = [] };
  }

  -- `generate`
  unfoldable pub generate :
      InstanceUpdate → String → String → String → String → Handler ComputeInstance
  generate request organization project region network = do
    networking ← lift (generate_networking env.parse request.spec.networking)
    h ← get
    inject_user_principal env organization project
    meta ←
        lift
          (env.metadata.set_identity (build_metadata h request organization project region network))
    pure (build request networking meta)

  -- The annotations of the resource after `NewAllocations(...).Create`.
  abbrev pub note_allocation : Result (Unit {0}) → SagaState → SagaState
  note_allocation (ok _) s = record s {
    resource = record (s.resource) { annotations = env.allocated s.sent s.resource.annotations };
  }
  note_allocation (err e) s = s
  note_allocation panic s = s

  -- `createAllocation`
  unfoldable pub create_allocation : Flavor → Comp SagaState (Unit {0})
  create_allocation flavor s =
      let required = generate_allocation flavor (public_ip_enabled s.resource) in
      let (r, t) = on_sent (write env.base (HandlerRequest.allocate s.resource required)) s in
      (r, note_allocation r t)

  -- `deleteAllocation`
  unfoldable pub delete_allocation : Comp SagaState (Unit {0})
  delete_allocation s = on_sent (write env.base (HandlerRequest.release s.resource)) s

  -- `createInstance`
  unfoldable pub store_instance : Comp SagaState (Unit {0})
  store_instance s = on_sent (write env.base (HandlerRequest.create_instance s.resource)) s

  abbrev pub create_action : Flavor → Action SagaState
  create_action flavor = record {
    run = create_allocation flavor;
    compensate = some delete_allocation;
  }

  abbrev pub store_action : Action SagaState
  store_action = record { run = store_instance; compensate = none }

  -- The actions of `createSaga`.
  abbrev pub create_actions : Flavor → List (Action SagaState)
  create_actions flavor = create_action flavor ∷ store_action ∷ []

  -- `updateAllocation` with the new flavor and `revertAllocation` with the current one.
  unfoldable pub change_allocation :
      ComputeInstance → Flavor → ComputeInstance → Comp SagaState (Unit {0})
  change_allocation current flavor wanted s =
      let required = generate_allocation flavor (public_ip_enabled wanted) in
      on_sent (write env.base (HandlerRequest.reallocate current required)) s

  -- `updateInstance`
  unfoldable pub update_instance : Comp SagaState (Unit {0})
  update_instance s = on_sent (write env.base (HandlerRequest.patch_instance s.resource)) s

  abbrev pub change_action : ComputeInstance → ComputeInstance → Flavor → Flavor → Action SagaState
  change_action current updated current_flavor flavor = record {
    run = change_allocation current flavor updated;
    compensate = some (change_allocation current current_flavor current);
  }

  abbrev pub patch_action : Action SagaState
  patch_action = record { run = update_instance; compensate = none }

  -- The actions of `updateSaga`.
  abbrev pub update_actions :
      ComputeInstance → ComputeInstance → Flavor → Flavor → List (Action SagaState)
  update_actions current updated current_flavor flavor =
      change_action current updated current_flavor flavor ∷ patch_action ∷ []

  abbrev pub show : Result (Unit {0}) → ComputeInstance → Result InstanceRead
  show (ok _) i = ok (convert env i)
  show (err e) i = err e
  show panic i = panic

  -- A saga, and the conversion of its resource.
  unfoldable pub run : ComputeInstance → List (Action SagaState) → Handler InstanceRead
  run resource actions h =
      let (r, t) = env.run_saga SagaState actions (record { resource = resource; sent = h }) in
      (show r t.resource, t.sent)

  -- `Create`, once the network is read.
  unfoldable pub create_on : InstanceCreate → NetworkV2Read → Handler InstanceRead
  create_on request network = do
    let organization = request.spec.organization_id
    let project = request.spec.project_id
    is_instance_name_in_use organization project request.spec.network_id request.metadata.name
    (flavor, _) ←
        check_flavor_and_image organization network.region_id request.spec.flavor_id
          request.spec.image_id
    validate_security_groups request.spec.networking
    resource ←
        generate (convert_create_to_update_request request) organization project network.region_id
          request.spec.network_id
    run resource (create_actions flavor)

  -- `Create`
  unfoldable pub create : InstanceCreate → Handler InstanceRead
  create request = do
    let organization = request.spec.organization_id
    let project = request.spec.project_id
    h ← get
    lift (env.allow_create h instances_endpoint organization project)
    inject_user_principal env organization project
    network ← get_network env request.spec.network_id
    create_on request network

  -- The instance that `Update` stores: a copy of the current one with the labels, the annotations
  -- and the specification of the required one, and its quota allocation as it was.
  abbrev pub merge : ComputeInstance → ComputeInstance → ComputeInstance
  merge current required = record current {
    labels = required.labels;
    annotations =
        insert env.allocation_annotation
          (lookup_or "" env.allocation_annotation current.annotations) required.annotations;
    spec = required.spec;
  }

  -- `Update`, once the current instance is read.
  unfoldable pub update_from : ComputeInstance → InstanceUpdate → Handler InstanceRead
  update_from current request = do
    let organization = organization_of env current
    let project = project_of env current
    let region = region_of env current
    inject_user_principal env organization project
    (current_flavor, _) ←
        check_flavor_and_image organization region current.spec.flavor_id current.spec.image_id
    (flavor, _) ←
        check_flavor_and_image organization region request.spec.flavor_id request.spec.image_id
    validate_security_groups request.spec.networking
    required ← generate request organization project region (network_of env current)
    run (merge current required)
        (update_actions current (merge current required) current_flavor flavor)

  -- `Update`
  unfoldable pub update : String → InstanceUpdate → Handler InstanceRead
  update id request = do
    current ← get_raw env id
    lift (allow env Operation.update current)
    if current.deleting then fail invalid_request else update_from current request
