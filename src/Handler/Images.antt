-- ===== src/Handler/Images.antt =====
-- The choice of an image in conversion.go: `filterImage` and `chooseImage`.
pub mod Choice
use uni_compute.Base.{
  String, Bool, true, false, not, Option, none, some, List, [], ◌∷◌, find, ◌==◌, string_eq, Eq,
  if◌then◌else◌,
}
use uni_compute.Base.Result.{Result, ok, err, panic, invalid_request, ◌>>=◌}
use uni_compute.External.Catalog.{Image}
use uni_compute.Api.{ComputeCluster, ComputeClusterWorkloadPoolSpec, OsDistro}
use uni_compute.OpenApi.{ImageSelector, ComputeImage}
use uni_compute.Api.Accessors.{get_workload_pool}

OsDistro-discrete : Discrete OsDistro
OsDistro-discrete = hlevel

instance unfoldable pub os_distro_eq : Eq OsDistro
unfolding OsDistro-discrete
os_distro_eq = record { dec = OsDistro-discrete }

-- The test of the variant.
abbrev pub wrong_variant : Option String → Option String → Bool
wrong_variant none available = false
wrong_variant (some wanted) none = true
wrong_variant (some wanted) (some available) = not (wanted == available)

abbrev pub misses : ImageSelector → Image → Bool
misses selector image =
    if not (image.distro == selector.distro)
    then true
    else if wrong_variant selector.variant image.variant
    then true
    else not (selector.version == image.version)

-- `filterImage`: is the image to be left out? A request with neither an ID nor a selector
-- dereferences the nil selector.
unfoldable pub filter_image : ComputeImage → Image → Result Bool
filter_image wanted image = elim wanted.id [
  | some id ↦ ok (not (id == image.id))
  | none ↦ elim wanted.selector [ none ↦ panic | some selector ↦ ok (misses selector image) ]
]

abbrev unless : {A : Type 0} → Bool → A → List A → List A
unless b x xs = if b then xs else x ∷ xs

-- `slices.DeleteFunc(images, filterImage)`
unfoldable pub filter_images : ComputeImage → List Image → Result (List Image)
filter_images wanted [] = ok []
filter_images wanted (image ∷ images) = filter_image wanted image >>= λ out.
    filter_images wanted images >>= λ rest. ok (unless out image rest)

abbrev pub first_image : List Image → Result Image
first_image [] = err invalid_request
first_image (image ∷ _) = ok image

-- The image of a pool, if it is among the images.
abbrev pub image_of : Option ComputeClusterWorkloadPoolSpec → List Image → Option Image
image_of none images = none
image_of (some pool) images = find (λ (image : Image). image.id == pool.image_id) images

-- The image of the current pool of that name, if there is one and it is among the images.
unfoldable pub current_image : Option ComputeCluster → String → List Image → Option Image
current_image none name images = none
current_image (some cluster) name images =
    image_of (get_workload_pool cluster.spec.workload_pools name) images

-- The image that was found, or what follows where none was.
abbrev pub or_else : Option Image → Result Image → Result Image
or_else (some image) r = ok image
or_else none r = r

-- `chooseImage`, from the images of the region.
unfoldable pub choose_image :
    Option ComputeCluster → String → ComputeImage → List Image → Result Image
choose_image current name wanted images = filter_images wanted images >>= λ kept.
    or_else (current_image current name kept) (first_image kept)
