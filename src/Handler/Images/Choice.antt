-- ===== src/Handler/Images/Choice.antt =====
-- Which image `chooseImage` takes.
use uni_compute.Base.{
  ◌≡◌, ◌≢◌, refl, sym, ◌&&◌, ◌⊎◌, String, Bool, true, false, not, Option, none, some, List, [], ◌∷◌,
  find, ◌==◌, string_eq, arith, delete_func,
}
use uni_compute.Base.Result.{Result, ok, err, invalid_request, ◌>>=◌}
use uni_compute.External.Catalog.{Image}
use uni_compute.Api.{ComputeCluster, ComputeClusterWorkloadPoolSpec}
use uni_compute.OpenApi.{ComputeImage}
use uni_compute.Api.Accessors.{get_workload_pool}
use uni_compute.Handler.Images.{
  filter_image, filter_images, image_of, or_else, current_image, first_image, choose_image,
  os_distro_eq,
}

-- The image has the variant that is asked for, if one is.
abbrev pub has_variant : Option String → Image → Bool
has_variant none image = true
has_variant (some variant) image = elim image.variant [ none ↦ false | some v ↦ variant == v ]

-- The image is what the request asks for: the one of its ID, or where there is none, one of the
-- distribution, the variant and the version of the selector.
abbrev pub fits : ComputeImage → Image → Bool
fits wanted image = elim wanted.id [
  | some id ↦ id == image.id
  | none ↦ elim wanted.selector [
    | none ↦ false
    | some selector ↦
        image.distro == selector.distro
        && has_variant selector.variant image
        && selector.version == image.version
  ]
]

-- A request names an image or has a selector.
abbrev pub IsAsked : ComputeImage → Type 0
IsAsked wanted = (wanted.id ≢ none) ⊎ (wanted.selector ≢ none)

filter_image-fits :
    (wanted : ComputeImage) (image : Image)
    → IsAsked wanted
    → filter_image wanted image ≡ ok (not (fits wanted image))
unfolding filter_image
filter_image-fits wanted image asked = ground arith

filter_images-fits :
    (wanted : ComputeImage) (images : List Image)
    → IsAsked wanted
    → filter_images wanted images ≡ ok (delete_func (λ image. not (fits wanted image)) images)
unfolding filter_images
filter_images-fits wanted [] asked = refl
filter_images-fits wanted (image ∷ images) asked =
    rw (filter_image-fits wanted image asked, filter_images-fits wanted images asked) (ground arith)

-- Is it the image of the pool?
abbrev pub is_of : Option ComputeClusterWorkloadPoolSpec → Image → Bool
is_of none image = false
is_of (some pool) image = image.id == pool.image_id

-- Is it the image of the current pool of that name?
abbrev pub is_current : Option ComputeCluster → String → Image → Bool
is_current none name = is_of none
is_current (some cluster) name = is_of (get_workload_pool cluster.spec.workload_pools name)

find-delete_func :
    (p q : Image → Bool) (images : List Image)
    → find p (delete_func (λ image. not (q image)) images)
      ≡ find (λ image. q image && p image) images
find-delete_func p q [] = refl
find-delete_func p q (image ∷ images) = ground (arith, find-delete_func p q images)

find-none : (images : List Image) → find (λ (image : Image). false) images ≡ none
find-none [] = refl
find-none (image ∷ images) = find-none images

image_of-eq :
    (pool : Option ComputeClusterWorkloadPoolSpec) (images : List Image)
    → image_of pool images ≡ find (is_of pool) images
image_of-eq none images = sym (find-none images)
image_of-eq (some pool) images = refl

current_image-eq :
    (current : Option ComputeCluster) (name : String) (images : List Image)
    → current_image current name images ≡ find (is_current current name) images
unfolding current_image
current_image-eq none name images = image_of-eq none images
current_image-eq (some cluster) name images =
    image_of-eq (get_workload_pool cluster.spec.workload_pools name) images

-- The first image of a property, or the error of the request.
abbrev pub first_of : (Image → Bool) → List Image → Result Image
first_of p images = elim (find p images) [ some image ↦ ok image | none ↦ err invalid_request ]

first_image-delete_func :
    (q : Image → Bool) (images : List Image)
    → first_image (delete_func (λ image. not (q image)) images) ≡ first_of q images
first_image-delete_func q [] = refl
first_image-delete_func q (image ∷ images) = ground (arith, first_image-delete_func q images)

-- Of the images that the region offers, the one that the pool has already is kept if it is what the
-- request asks for, so the one of its ID, or without an ID one of the distribution, the variant and
-- the version of its selector; else the first that is, which the region service lists first as the
-- newest; and where none is, the request is invalid. A request has an image ID or a selector.
pub choose_image_lem :
    (current : Option ComputeCluster) (name : String) (wanted : ComputeImage) (images : List Image)
    → IsAsked wanted
    → choose_image current name wanted images
      ≡ or_else
          (find (λ image. fits wanted image && is_current current name image) images)
          (first_of (fits wanted) images)
unfolding choose_image
choose_image_lem current name wanted images asked =
    let kept = delete_func (λ image. not (fits wanted image)) images in
    rw
      (
        filter_images-fits wanted images asked,
        ◌>>=◌,
        current_image-eq current name kept,
        find-delete_func (is_current current name) (fits wanted) images,
        first_image-delete_func (fits wanted) images,
      )
      refl
