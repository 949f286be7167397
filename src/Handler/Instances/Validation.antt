-- ===== src/Handler/Instances/Validation.antt =====
-- What has to hold of a flavor and an image.
use uni_compute.Base.{
  ◌≡◌, refl, String, Bool, true, false, not, ◌&&◌, Option, none, some, List, find, leb,
  if◌then◌else◌, ◌==◌, string_eq, arith,
}
use uni_compute.Base.Result.{Result, ok, err, invalid_request, ◌>>=◌}
use uni_compute.External.Catalog.{Flavor, Image, ImageState, any, baremetal, virtualized}
use uni_compute.Handler.Instances.{
  validate_virtualization, validate, get_flavor, get_image, get_and_validate_flavor_and_image,
  flag_or_off,
}

-- An image runs on a flavor if it is ready, built for its architecture, fits on its disk, and
-- is for the kind of machine that the flavor is.
abbrev pub runs_on : Flavor → Image → Bool
runs_on flavor image =
    elim image.state [ ImageState.ready ↦ true | _ ↦ false ]
    && flavor.architecture == image.architecture
    && leb image.size flavor.disk
    && elim image.virtualization [
      | any ↦ true
      | baremetal ↦ flag_or_off flavor.baremetal
      | virtualized ↦ not (flag_or_off flavor.baremetal)
    ]

-- The first flavor and the first image of the IDs, if both are offered and one runs on the other.
abbrev pub pick : Option Flavor → Option Image → Result (Flavor × Image)
pick (some flavor) (some image) =
    if runs_on flavor image then ok (flavor, image) else err invalid_request
pick _ _ = err invalid_request

validate-runs_on :
    (flavor : Flavor) (image : Image) → validate flavor image ≡ pick (some flavor) (some image)
unfolding validate validate_virtualization
validate-runs_on flavor image = ground arith

-- A flavor and an image are accepted exactly if the region offers both and the image runs on the
-- flavor; everything else is an invalid request.
pub get_and_validate_flavor_and_image_lem :
    (flavors : List Flavor) (images : List Image) (flavor_id image_id : String)
    → get_and_validate_flavor_and_image flavors images flavor_id image_id
      ≡ pick
          (find (λ (f : Flavor). f.id == flavor_id) flavors)
          (find (λ (i : Image). i.id == image_id) images)
unfolding get_and_validate_flavor_and_image get_flavor get_image
get_and_validate_flavor_and_image_lem flavors images flavor_id image_id =
    picked (find (λ (f : Flavor). f.id == flavor_id) flavors)
      (find (λ (i : Image). i.id == image_id) images)
  where
    picked :
        (f : Option Flavor) (i : Option Image)
        → ((elim f [ none ↦ err invalid_request | some flavor ↦ ok flavor ]) >>= λ flavor.
            (elim i [ none ↦ err invalid_request | some image ↦ ok image ]) >>= λ image.
            validate flavor image)
          ≡ pick f i
    picked none i = ground arith
    picked (some flavor) none = refl
    picked (some flavor) (some image) = validate-runs_on flavor image
