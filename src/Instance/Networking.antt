-- ===== src/Instance/Networking.antt =====
-- What reaches the region service of an instance's networking and power state.
use uni_compute.Base.{
  ◌≡◌, String, Bool, false, Option, none, some, List, [], map, string_eq, ◌↔◌, arith,
}
use uni_compute.External.RegionV2.{ServerV2Networking}
use uni_compute.Api.{ComputeInstanceNetworking}
use uni_compute.Instance.Generate.{generate_server_networking}

-- A missing list is an empty one, and a missing flag is off.
abbrev list_of : {A : Type 0} → Option (List A) → List A
list_of none = []
list_of (some xs) = xs

abbrev flag_of : Option Bool → Bool
flag_of none = false
flag_of (some b) = b

-- What a server's networking means.
pub record Meaning : Type 0 where
  pub security_groups : List String
  pub public_ip : Bool
  pub addresses : List String

abbrev pub sent_meaning : Option ServerV2Networking → Meaning
sent_meaning none = record { security_groups = []; public_ip = false; addresses = [] }
sent_meaning (some n) = record {
  security_groups = list_of n.security_groups;
  public_ip = flag_of n.public_ip;
  addresses = list_of n.allowed_source_addresses;
}

abbrev pub stored_meaning : Option ComputeInstanceNetworking → Meaning
stored_meaning none = record { security_groups = []; public_ip = false; addresses = [] }
stored_meaning (some n) = record {
  security_groups = n.security_group_ids;
  public_ip = n.public_ip;
  addresses = map (λ p. p.text) n.allowed_source_addresses;
}

-- The generated networking means what the instance's does, and it is left out exactly where it
-- would ask for nothing.
pub generate_server_networking_lem :
    (n : Option ComputeInstanceNetworking)
    → (sent_meaning (generate_server_networking n) ≡ stored_meaning n)
      × ((generate_server_networking n ≡ none)
          ↔ (stored_meaning n ≡ record { security_groups = []; public_ip = false; addresses = [] }))
unfolding generate_server_networking
generate_server_networking_lem none = ground arith
generate_server_networking_lem (some n) = ground arith
