-- ===== src/Examples/Handlers.antt =====
-- Requests to the handlers, for the test cluster and the test instance.
use uni_compute.Base.{
  ◌≡◌, inl, refl, String, false, not, ◌&&◌, Option, none, some, List, [], ◌∷◌, map, count, find,
  ◌==◌, string_eq, delete_func, if◌then◌else◌,
}
use uni_compute.Base.Result.{ok}
use uni_compute.External.Core.{IPv4Prefix, Tag}
use uni_compute.External.Region.{running}
use uni_compute.External.Env.{replied}
use uni_compute.External.Catalog.{Flavor, Image, ImageState, ImageVirtualization, found, HandlerEnv}
use uni_compute.Api.{OsDistro}
use uni_compute.Status.{machine_status}
use uni_compute.Cluster.ServerSet.{server_spec}
use uni_compute.Handler.Client.{declares_software}
use uni_compute.Handler.Images.{choose_image, or_else}
use uni_compute.Handler.Images.Choice.{fits, is_current, first_of, IsAsked, choose_image_lem}
use uni_compute.Handler.Convert.{convert_machine_status, convert_workload_pool, convert_image}
use uni_compute.Handler.Convert.Health.{
  shown_health, shown_provisioning, convert_machine_status-machine_status,
}
use uni_compute.Handler.Generate.{generate_workload_pools}
use uni_compute.Handler.Generate.Parsing.{HasReadPrefixes}
use uni_compute.Handler.Generate.RoundTrip.{IsOffered, generate_workload_pools-convert}
use uni_compute.Handler.Instances.{
  convert_networking, generate_networking, get_and_validate_flavor_and_image, snapshot_tags,
  list_or_nil,
}
use uni_compute.Handler.Instances.Networking.{
  normal, HasReadSources, generate_networking-convert_networking,
}
use uni_compute.Handler.Instances.Validation.{pick, get_and_validate_flavor_and_image_lem}
use uni_compute.Handler.Instances.Tags.{is_system, is_instance_tag, snapshot_tags_lem}
use uni_compute.Examples.Data.{
  stored_conditions, stored_conditions-AreLawful, server_a, server_b, cluster, web, networking,
}

abbrev pub flavor : Flavor
flavor = record {
  id = "flavor";
  gpu = some 2;
  baremetal = none;
  architecture = "x86_64";
  disk = 20;
}

abbrev pub image : String → Image
image id = record {
  id = id;
  distro = OsDistro.ubuntu;
  variant = none;
  version = "24.04";
  software_versions = none;
  state = ImageState.ready;
  architecture = "x86_64";
  size = 10;
  virtualization = ImageVirtualization.any;
}

abbrev pub api : HandlerEnv
api = record {
  identity_annotation = "identity";
  allocation_annotation = "allocation";
  network_label = "network";
  compute_cluster_label = "compute-cluster";
  cluster = λ _. found cluster;
  owned = λ _ _ _. ok tt;
  regions = λ _. replied 200 [];
  flavors = λ _. replied 200 (flavor ∷ []);
  images = λ _. replied 200 (image "new" ∷ image "image" ∷ []);
  servers = λ _. replied 200 (server_a ∷ server_b ∷ []);
  action = λ _. replied 202 tt;
  write = λ _. none;
  is_missing = λ _. false;
}

-- A parser of a few prefixes, which drops the host bits of an address and refuses every other text.
abbrev pub parse : String → Option IPv4Prefix
parse t =
    if t == "10.0.0.0/8"
    then some (record { text = "10.0.0.0/8" })
    else if t == "10.1.2.3/8"
    then some (record { text = "10.0.0.0/8" })
    else none

parsed : (parse "10.1.2.3/8" ≡ some (record { text = "10.0.0.0/8" })) × (parse "10.0.0.0" ≡ none)
unfolding string_eq
parsed = (refl, refl)

web-HasReadPrefixes : HasReadPrefixes parse web
unfolding string_eq
web-HasReadPrefixes = (((refl, tt), tt), tt)

pub networking-HasReadSources : HasReadSources parse (some networking)
unfolding string_eq
networking-HasReadSources = (refl, tt)

wanted-IsAsked : IsAsked (record { id = some "image"; selector = none })
wanted-IsAsked = inl asked
  where
    asked : Path (Option String) (some "image") none → ⊥
    asked e = cc

choose_image_example :
    choose_image none "web"
      (record { id = some "image"; selector = none })
      (image "new" ∷ image "image" ∷ [])
    ≡ or_else
        (find
          (λ i. fits (record { id = some "image"; selector = none }) i && is_current none "web" i)
          (image "new" ∷ image "image" ∷ []))
        (first_of
          (fits (record { id = some "image"; selector = none }))
          (image "new" ∷ image "image" ∷ []))
choose_image_example =
    choose_image_lem none "web" (record { id = some "image"; selector = none })
      (image "new" ∷ image "image" ∷ []) wanted-IsAsked

web-IsOffered :
    IsOffered cluster
      (flavor ∷ [])
      (delete_func declares_software (image "new" ∷ image "image" ∷ []))
      web
unfolding convert_image string_eq
web-IsOffered = record {
  flavor = flavor;
  image = image "image";
  own = refl;
  has_flavor = refl;
  has_image = refl;
}

generate_workload_pools-convert_example :
    (generate_workload_pools parse api "acme" "region"
      (some cluster)
      (map convert_workload_pool (web ∷ []))
      []).0
    ≡ ok (web ∷ [])
generate_workload_pools-convert_example =
    generate_workload_pools-convert parse api "acme" "region" cluster (flavor ∷ [])
      (image "new" ∷ image "image" ∷ []) (λ _. refl) (λ _. refl) (web ∷ []) []
      (web-HasReadPrefixes, tt) (web-IsOffered, tt)

convert_machine_status-machine_status_example :
    convert_machine_status stored_conditions (machine_status stored_conditions server_a) ≡ record {
      id = "1";
      hostname = "web-a";
      flavor_id = "flavor";
      image_id = "image";
      private_ip = some "10.0.0.1";
      public_ip = none;
      status = running;
      provisioning_status = shown_provisioning server_a.provisioning_status;
      health_status = shown_health server_a.health_status;
    }
unfolding server_spec
convert_machine_status-machine_status_example =
    convert_machine_status-machine_status stored_conditions stored_conditions-AreLawful server_a

generate_networking-convert_networking_example :
    generate_networking parse (convert_networking (some networking)) ≡ ok (normal (some networking))
generate_networking-convert_networking_example =
    generate_networking-convert_networking parse (some networking) networking-HasReadSources

get_and_validate_flavor_and_image_example :
    get_and_validate_flavor_and_image (flavor ∷ []) (image "image" ∷ []) "flavor" "image"
    ≡ pick
        (find (λ (f : Flavor). f.id == "flavor") (flavor ∷ []))
        (find (λ (i : Image). i.id == "image") (image "image" ∷ []))
get_and_validate_flavor_and_image_example =
    get_and_validate_flavor_and_image_lem (flavor ∷ []) (image "image" ∷ []) "flavor" "image"

abbrev user_tags : Option (List Tag)
user_tags = some (
    record { name = "compute.unikorn-cloud.org:mine"; value = "x" }
    ∷ record { name = "owner"; value = "ops" }
    ∷ [])

snapshot_tags_example :
    let sent = list_or_nil (snapshot_tags "instance" user_tags) in
    (count is_system sent ≡ 1)
    × (count (is_instance_tag "instance") sent ≡ 1)
    × (count (λ tag. tag.name == "owner" && not (is_system tag)) sent
        ≡ count (λ tag. tag.name == "owner" && not (is_system tag)) (list_or_nil user_tags))
snapshot_tags_example = snapshot_tags_lem "instance" user_tags (λ tag. tag.name == "owner")
