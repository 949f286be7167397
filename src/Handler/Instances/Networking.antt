-- ===== src/Handler/Instances/Networking.antt =====
-- The networking of an instance that is read and written back.
use uni_compute.Base.{
  ◌≡◌, refl, String, Option, none, some, List, [], ◌∷◌, All, if◌then◌else◌, arith,
}
use uni_compute.Base.Result.{ok}
use uni_compute.External.Core.{IPv4Prefix}
use uni_compute.Api.{ComputeInstanceNetworking}
use uni_compute.Instance.Generate.{non_empty}
use uni_compute.Handler.Generate.{generate_prefixes}
use uni_compute.Handler.Generate.Parsing.{IsRead, generate_prefixes-convert}
use uni_compute.Handler.Instances.{convert_networking, generate_networking, list_or_nil}

-- Networking that asks for nothing is no networking.
abbrev pub normal : Option ComputeInstanceNetworking → Option ComputeInstanceNetworking
normal none = none
normal (some n) = elim n.security_group_ids [
  | _ ∷ _ ↦ some n
  | [] ↦ elim n.allowed_source_addresses [
    | _ ∷ _ ↦ some n
    | [] ↦ if n.public_ip then some n else none
  ]
]

pub list_or_nil-non_empty : {A : Type 0} (xs : List A) → list_or_nil (non_empty xs) ≡ xs
list_or_nil-non_empty [] = refl
list_or_nil-non_empty (x ∷ xs) = refl

-- The sources that are allowed are read back by `ParseCIDR`.
abbrev pub HasReadSources : (String → Option IPv4Prefix) → Option ComputeInstanceNetworking → Type 0
HasReadSources parse none = Unit {0}
HasReadSources parse (some n) = All (IsRead parse) n.allowed_source_addresses

module _ (parse : String → Option IPv4Prefix) where
  -- If `ParseCIDR` reads its prefixes back from what they print as, the networking that the API shows
  -- of an instance is read back as that of the instance, except that networking that asks for
  -- nothing is read as none.
  pub generate_networking-convert_networking :
      (n : Option ComputeInstanceNetworking)
      → HasReadSources parse n
      → generate_networking parse (convert_networking n) ≡ ok (normal n)
  unfolding generate_networking convert_networking generate_prefixes
  generate_networking-convert_networking none h = refl
  generate_networking-convert_networking (some n) h =
      ground (arith, generate_prefixes-convert parse n.allowed_source_addresses h)
