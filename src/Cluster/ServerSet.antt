-- ===== src/Cluster/ServerSet.antt =====
-- server.go: the sets of servers, what a pool requires of a server, and the choice of a server to
-- delete.
pub mod Adding
pub mod Candidates
pub mod Laws
use Prim.Native.Char.{code}
use uni_compute.Base.{
  ℕ, String, Bool, true, false, not, Option, none, some, List, [], ◌∷◌, ◌<>◌, map, find, ◌==◌,
  string_eq, if◌then◌else◌, eqb, ◌||◌,
}
use uni_compute.Base.Dict.{Dict, lookup, insert, values}
use uni_compute.Base.Result.{Error, consistency, Result, ok, err, panic, ◌>>=◌}
use uni_compute.External.Region.{
  ServerRead, ServerWrite, ServerSpec, server_spec_eq, SecurityGroupRead, AllowedAddressPair,
}
use uni_compute.Api.{ComputeClusterWorkloadPoolSpec, ComputeWorkloadPoolAddressPair}
use uni_compute.Api.Accessors.{has_firewall_rules}
use uni_compute.Status.{get_workload_pool_tag}

-- `serverSet`, the servers by name.
abbrev pub ServerSet : Type 0
ServerSet = Dict ServerRead

-- `add` of `serverSet`, and of the sets of security groups.
unfoldable pub add : {V : Type 0} → String → V → Dict V → Result (Dict V)
add name v set = elim (lookup name set) [ none ↦ ok (insert name v set) | some _ ↦ err consistency ]

-- The loop of `newServerSet`.
unfoldable pub add_servers : ServerSet → List ServerRead → Result ServerSet
add_servers set [] = ok set
add_servers set (server ∷ servers) = add server.name server set >>= λ set'. add_servers set' servers

-- `newServerSet`
unfoldable pub new_server_set : List ServerRead → Result ServerSet
new_server_set = add_servers []

-- `servers[0]`
abbrev first_of_servers : List ServerRead → Result ServerRead
first_of_servers [] = panic
first_of_servers (server ∷ _) = ok server

-- The loops of `selectDeletionCandidate`.
unfoldable pub prefer : List ServerRead → List String → Result ServerRead
prefer servers [] = first_of_servers servers
prefer servers (id ∷ ids) =
    let rest = prefer servers ids in
    elim (find (λ server. server.id == id) servers) [ some server ↦ ok server | none ↦ rest ]

-- `selectDeletionCandidate`. The order of the set stands for the arbitrary one of `maps.Values`.
unfoldable pub select_deletion_candidate : ServerSet → List String → Result ServerRead
unfolding prefer
select_deletion_candidate set preferred = prefer (values set) preferred

-- `generateSecurityGroup` of a server.
unfoldable pub generate_security_group :
    ComputeClusterWorkloadPoolSpec → Dict SecurityGroupRead → Result (Option (List String))
generate_security_group pool groups =
    if not (has_firewall_rules pool) then ok none else elim (lookup pool.name groups) [
      | none ↦ err consistency
      | some group ↦ ok (some (group.id ∷ []))
    ]

abbrev generate_allowed_address_pairs :
    List ComputeWorkloadPoolAddressPair → Option (List AllowedAddressPair)
generate_allowed_address_pairs [] = none
generate_allowed_address_pairs (pair ∷ pairs) =
    some (map (λ p. record { cidr = p.cidr.text; mac_address = none }) (pair ∷ pairs))

-- The specification that `generateServer` builds.
unfoldable pub server_spec :
    String → ComputeClusterWorkloadPoolSpec → Option (List String) → ServerSpec
server_spec network_id pool groups = record {
  flavor_id = pool.flavor_id;
  image_id = pool.image_id;
  networks =
      record {
        id = network_id;
        allowed_address_pairs = generate_allowed_address_pairs pool.allowed_address_pairs;
      }
      ∷ [];
  public_ip_allocation = elim pool.public_ip_allocation [ none ↦ some false | some b ↦ some b ];
  security_groups = groups;
  user_data = pool.user_data;
}

-- `needsUpdate`
unfoldable pub needs_update : ServerRead → ServerWrite → Bool
needs_update current requested = not (current.spec == requested.spec)

-- `needsRebuild`
unfoldable pub needs_rebuild : ServerRead → ServerWrite → Bool
needs_rebuild current requested =
    if not (current.spec.flavor_id == requested.spec.flavor_id)
    then true
    else not (current.spec.image_id == requested.spec.image_id)

-- `s[pool][name] = server`, where `s[pool]` may be missing.
abbrev add_to_pool : String → String → ServerRead → Dict ServerSet → Dict ServerSet
add_to_pool pool name server s =
    insert pool (insert name server (elim (lookup pool s) [ none ↦ [] | some set ↦ set ])) s

-- The loop of `newServerPoolSet`.
unfoldable pub add_to_pools : Dict ServerSet → ServerSet → Result (Dict ServerSet)
add_to_pools s [] = ok s
add_to_pools s ((name, server) ∷ servers) =
    let next = get_workload_pool_tag server.tags >>= λ pool.
    add_to_pools (add_to_pool pool name server s) servers in
    let skip = add_to_pools s servers in elim server.deletion_time [ some _ ↦ skip | none ↦ next ]

-- `newServerPoolSet`
unfoldable pub new_server_pool_set : ServerSet → Result (Dict ServerSet)
new_server_pool_set = add_to_pools []

-- Puts a character in front of the first part.
abbrev pub extend_part : String → List String → List String
extend_part c [] = c ∷ []
extend_part c (part ∷ parts) = (c <> part) ∷ parts

-- `strings.Split(t, ",")`
unfoldable pub split_commas : String → List String
split_commas String.[] = "" ∷ []
split_commas (String.◌∷◌ c s) =
    let rest = split_commas s in
    if eqb (code c) b',' then "" ∷ rest else extend_part (String.◌∷◌ c "") rest
