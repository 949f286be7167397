-- ===== src/Instance/Generate.antt =====
-- The requests that provisioner.go generates for an instance, and when a server is rebuilt.
use uni_compute.Base.{
  ℕ, String, Bool, true, not, Option, none, some, List, [], ◌∷◌, ◌<>◌, map, ◌==◌, string_eq,
  if◌then◌else◌,
}
use uni_compute.Base.Dict.{lookup_or}
use uni_compute.External.Core.{Tag}
use uni_compute.External.Region.{InstanceLifecyclePhase, pending, running, stopping, stopped}
use uni_compute.External.RegionV2.{
  ServerV2Networking, ServerV2Spec, ServerV2Create, ServerV2Update, EnvV2,
}
use uni_compute.Api.{ComputeInstance, ComputeInstanceNetworking}

abbrev pub instance_label : String
instance_label = "compute.unikorn-cloud.org/instance-id"

-- A pointer to a list, nil for an empty one.
abbrev pub non_empty : {A : Type 0} → List A → Option (List A)
non_empty [] = none
non_empty (x ∷ xs) = some (x ∷ xs)

-- `reflect.ValueOf(out).IsZero()`: nothing is set.
abbrev pub unless_zero : ServerV2Networking → Option ServerV2Networking
unless_zero out = elim out.security_groups [
  | some _ ↦ some out
  | none ↦ elim out.public_ip [
    | some _ ↦ some out
    | none ↦ elim out.allowed_source_addresses [ some _ ↦ some out | none ↦ none ]
  ]
]

-- `generateServerNetworking`
unfoldable pub generate_server_networking :
    Option ComputeInstanceNetworking → Option ServerV2Networking
generate_server_networking none = none
generate_server_networking (some n) = unless_zero (record {
  security_groups = non_empty n.security_group_ids;
  public_ip = if n.public_ip then some true else none;
  allowed_source_addresses = non_empty (map (λ p. p.text) n.allowed_source_addresses);
})

-- `generateUserData`
abbrev pub generate_user_data : List ℕ → Option (List ℕ)
generate_user_data user_data = non_empty user_data

-- The specification of `generateServerCreateRequest` and `generateServerUpdateRequest`.
unfoldable pub generate_server_spec : ComputeInstance → ServerV2Spec
generate_server_spec i = record {
  flavor_id = i.spec.flavor_id;
  image_id = i.spec.image_id;
  networking = generate_server_networking i.spec.networking;
  user_data = generate_user_data i.spec.user_data;
}

-- `needsRebuild`
unfoldable pub needs_rebuild : ServerV2Spec → ServerV2Spec → Bool
needs_rebuild a b =
    if not (a.flavor_id == b.flavor_id) then true else not (a.image_id == b.image_id)

-- `convertPowerState`
unfoldable pub convert_power_state : Option InstanceLifecyclePhase → Option InstanceLifecyclePhase
convert_power_state none = none
convert_power_state (some running) = some running
convert_power_state (some stopping) = some stopping
convert_power_state (some stopped) = some stopped
convert_power_state (some _) = some pending

abbrev instance_tags : ComputeInstance → List Tag
instance_tags i = record { name = instance_label; value = i.name } ∷ []

module _ (env : EnvV2) where
  -- `generateServerCreateRequest`
  unfoldable pub generate_server_create_request : ComputeInstance → ServerV2Create
  generate_server_create_request i = record {
    name = lookup_or "" env.name_label i.labels;
    description = some ("Server for instance" <> i.name);
    tags = instance_tags i;
    network_id = lookup_or "" env.network_label i.labels;
    spec = generate_server_spec i;
  }

  -- `generateServerUpdateRequest`
  unfoldable pub generate_server_update_request : ComputeInstance → ServerV2Update
  generate_server_update_request i = record {
    name = lookup_or "" env.name_label i.labels;
    description = some ("Server for instance" <> i.name);
    tags = instance_tags i;
    spec = generate_server_spec i;
  }
