-- ===== src/Handler/Instances.antt =====
-- client.go of the instance handler: networking, what is checked of a flavor and an image, quota
-- allocations, and the tags of snapshots.
pub mod Networking
pub mod Validation
pub mod Tags
pub mod Client
pub mod Write
pub mod Quota
pub mod Scope
pub mod Servers
use Prim.Native.Char.{code}
use uni_compute.Base.{
  ℕ, String, Bool, true, false, not, ◌&&◌, ◌<>◌, Option, none, some, List, [], ◌∷◌, ◌++◌, map, find,
  delete_func, if◌then◌else◌, eqb, ltb, ◌==◌, string_eq,
}
use uni_compute.Base.Int.{pos}
use uni_compute.Base.Result.{Result, ok, err, panic, invalid_request, ◌>>=◌}
use uni_compute.External.Core.{IPv4Prefix, Tag}
use uni_compute.External.Catalog.{
  Flavor, Image, ImageState, ImageVirtualization, any, baremetal, virtualized, Allocation,
}
use uni_compute.Api.{ComputeInstanceNetworking}
use uni_compute.OpenApi.{InstanceNetworking}
use uni_compute.Instance.Generate.{non_empty}
use uni_compute.Handler.Generate.{generate_prefixes}

-- `reflect.ValueOf(out).IsZero()`: nothing is set.
abbrev pub unless_unset : InstanceNetworking → Option InstanceNetworking
unless_unset out = elim out.security_groups [
  | some _ ↦ some out
  | none ↦ elim out.public_ip [
    | some _ ↦ some out
    | none ↦ elim out.allowed_source_addresses [ some _ ↦ some out | none ↦ none ]
  ]
]

-- `ConvertNetworking`
unfoldable pub convert_networking : Option ComputeInstanceNetworking → Option InstanceNetworking
convert_networking none = none
convert_networking (some n) = unless_unset (record {
  public_ip = if n.public_ip then some true else none;
  security_groups = non_empty n.security_group_ids;
  allowed_source_addresses = non_empty (map (λ p. p.text) n.allowed_source_addresses);
})

abbrev pub list_or_nil : {A : Type 0} → Option (List A) → List A
list_or_nil none = []
list_or_nil (some xs) = xs

-- The prefixes, whose error is an invalid request.
abbrev pub as_request : Result (List IPv4Prefix) → Result (List IPv4Prefix)
as_request (ok ps) = ok ps
as_request (err e) = err invalid_request
as_request panic = panic

-- `IsZero` of what `GenerateNetworking` builds. A list that is set but empty is not nil.
abbrev pub is_zero : InstanceNetworking → Bool
is_zero n = elim n.security_groups [
  | some _ ↦ false
  | none ↦ elim n.allowed_source_addresses [
    | some _ ↦ false
    | none ↦ elim n.public_ip [ none ↦ true | some b ↦ not b ]
  ]
]

abbrev pub flag_or_off : Option Bool → Bool
flag_or_off none = false
flag_or_off (some b) = b

-- `GenerateNetworking`
unfoldable pub generate_networking :
    (String → Option IPv4Prefix)
    → Option InstanceNetworking
    → Result (Option ComputeInstanceNetworking)
generate_networking parse none = ok none
generate_networking parse (some n) =
    as_request (generate_prefixes parse (list_or_nil n.allowed_source_addresses)) >>= λ prefixes.
    ok (
      if is_zero n
      then none
      else some (record {
        public_ip = flag_or_off n.public_ip;
        security_group_ids = list_or_nil n.security_groups;
        allowed_source_addresses = prefixes;
      }))

-- `ValidateVirtualization`
unfoldable pub validate_virtualization : Flavor → Image → Result (Unit {0})
validate_virtualization flavor image =
    let bare = flag_or_off flavor.baremetal in
    elim image.virtualization [
      | any ↦ ok tt
      | baremetal ↦ if bare then ok tt else err invalid_request
      | virtualized ↦ if bare then err invalid_request else ok tt
    ]

abbrev is_ready : ImageState → Bool
is_ready ImageState.ready = true
is_ready _ = false

-- The checks of `getAndValidateFlavorAndImage`, in their order.
unfoldable pub validate : Flavor → Image → Result (Flavor × Image)
validate flavor image =
    if not (is_ready image.state)
    then err invalid_request
    else if not (flavor.architecture == image.architecture)
    then err invalid_request
    else if ltb flavor.disk image.size
    then err invalid_request
    else (validate_virtualization flavor image >>= λ _. ok (flavor, image))

-- `getFlavor`, from the flavors of the region.
unfoldable pub get_flavor : List Flavor → String → Result Flavor
get_flavor flavors id = elim (find (λ (f : Flavor). f.id == id) flavors) [
  | none ↦ err invalid_request
  | some flavor ↦ ok flavor
]

-- `getImage`, from the images of the region.
unfoldable pub get_image : List Image → String → Result Image
get_image images id = elim (find (λ (i : Image). i.id == id) images) [
  | none ↦ err invalid_request
  | some image ↦ ok image
]

-- `getAndValidateFlavorAndImage`, from what the region offers.
unfoldable pub get_and_validate_flavor_and_image :
    List Flavor → List Image → String → String → Result (Flavor × Image)
get_and_validate_flavor_and_image flavors images flavor_id image_id =
    get_flavor flavors flavor_id >>= λ flavor.
    get_image images image_id >>= λ image. validate flavor image

-- `generateAllocation`
unfoldable pub generate_allocation : Flavor → Bool → List Allocation
generate_allocation flavor public_ip =
    record { kind = "servers"; committed = pos 1 }
    ∷ record { kind = "gpus"; committed = pos (elim flavor.gpu [ none ↦ 0 | some count ↦ count ]) }
    ∷ record { kind = "floatingips"; committed = pos (if public_ip then 1 else 0) }
    ∷ []

-- `strings.HasPrefix`
unfoldable pub has_prefix : String → String → Bool
has_prefix s String.[] = true
has_prefix String.[] (String.◌∷◌ c p) = false
has_prefix (String.◌∷◌ d s) (String.◌∷◌ c p) = eqb (code d) (code c) && has_prefix s p

abbrev pub system_tag_prefix : String
system_tag_prefix = "compute.unikorn-cloud.org:"

abbrev pub instance_id_tag : String
instance_id_tag = system_tag_prefix <> "instance-id"

-- `dropSystemTags`
unfoldable pub drop_system_tags : Option (List Tag) → Option (List Tag)
drop_system_tags none = none
drop_system_tags (some tags) =
    some (delete_func (λ tag. has_prefix tag.name system_tag_prefix) tags)

-- `setTag`
unfoldable pub set_tag : String → String → Option (List Tag) → Option (List Tag)
set_tag name value tags = some (list_or_nil tags ++ (record { name = name; value = value } ∷ []))

-- The tags that `Snapshot` sends.
abbrev pub snapshot_tags : String → Option (List Tag) → Option (List Tag)
snapshot_tags id tags = set_tag instance_id_tag id (drop_system_tags tags)
