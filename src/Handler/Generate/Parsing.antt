-- ===== src/Handler/Generate/Parsing.antt =====
-- What the API shows of a pool is read back as that pool, part by part.
use uni_compute.Base.{◌≡◌, refl, String, Option, some, List, [], ◌∷◌, map, All, string_eq, arith}
use uni_compute.Base.Result.{ok, ◌>>=◌}
use uni_compute.External.Core.{IPv4Prefix}
use uni_compute.External.Catalog.{Flavor, Image}
use uni_compute.Api.{ComputeClusterWorkloadPoolSpec, ComputeWorkloadPoolAddressPair, FirewallRule}
use uni_compute.Handler.Convert.{
  convert_pair, convert_prefixes, convert_firewall_rule, convert_firewall_rules,
  convert_allowed_address_pairs, convert_image, convert_machine, convert_workload_pool,
}
use uni_compute.Handler.Generate.{
  generate_prefixes, generate_firewall_rule, generate_rules, generate_firewall_rules,
  generate_pairs, generate_allowed_address_pairs, generate_image_selector, assemble,
}

-- `ParseCIDR` reads the prefix back from what it prints as.
abbrev pub IsRead : (String → Option IPv4Prefix) → IPv4Prefix → Type 0
IsRead parse p = parse p.text ≡ some p

-- The prefixes of the firewall rules and the address pairs of the pool are read back.
abbrev pub HasReadPrefixes : (String → Option IPv4Prefix) → ComputeClusterWorkloadPoolSpec → Type 0
HasReadPrefixes parse pool =
    All (λ rule. All (IsRead parse) rule.prefixes) pool.firewall
    × All (λ pair. IsRead parse pair.cidr) pool.allowed_address_pairs

module _ (parse : String → Option IPv4Prefix) where
  pub generate_prefixes-convert :
      (prefixes : List IPv4Prefix)
      → All (IsRead parse) prefixes
      → generate_prefixes parse (convert_prefixes prefixes) ≡ ok prefixes
  unfolding generate_prefixes
  generate_prefixes-convert [] h = refl
  generate_prefixes-convert (p ∷ prefixes) (read, h) =
      rw (read, ◌>>=◌, generate_prefixes-convert prefixes h) refl

  generate_firewall_rule-convert :
      (rule : FirewallRule)
      → All (IsRead parse) rule.prefixes
      → generate_firewall_rule parse (convert_firewall_rule rule) ≡ ok rule
  unfolding generate_firewall_rule convert_firewall_rule
  generate_firewall_rule-convert rule h =
      rw (generate_prefixes-convert rule.prefixes h) (ground arith)

  generate_rules-convert :
      (rules : List FirewallRule)
      → All (λ rule. All (IsRead parse) rule.prefixes) rules
      → generate_rules parse (map convert_firewall_rule rules) ≡ ok rules
  unfolding generate_rules
  generate_rules-convert [] h = refl
  generate_rules-convert (rule ∷ rules) (read, h) =
      rw (generate_firewall_rule-convert rule read, ◌>>=◌, generate_rules-convert rules h) refl

  generate_firewall_rules-convert :
      (rules : List FirewallRule)
      → All (λ rule. All (IsRead parse) rule.prefixes) rules
      → generate_firewall_rules parse (convert_firewall_rules rules) ≡ ok rules
  unfolding generate_firewall_rules convert_firewall_rules
  generate_firewall_rules-convert [] h = refl
  generate_firewall_rules-convert (rule ∷ rules) h = generate_rules-convert (rule ∷ rules) h

  generate_pairs-convert :
      (pairs : List ComputeWorkloadPoolAddressPair)
      → All (λ pair. IsRead parse pair.cidr) pairs
      → generate_pairs parse (map convert_pair pairs) ≡ ok pairs
  unfolding generate_pairs
  generate_pairs-convert [] h = refl
  generate_pairs-convert (pair ∷ pairs) (read, h) =
      rw (read, ◌>>=◌, generate_pairs-convert pairs h) (ground arith)

  generate_image_selector-convert :
      (pool : ComputeClusterWorkloadPoolSpec)
      → generate_image_selector (convert_image pool) ≡ ok pool.image_selector
  unfolding generate_image_selector convert_image
  generate_image_selector-convert pool = ground arith

  pub assemble-convert :
      (pool : ComputeClusterWorkloadPoolSpec) (flavor : Flavor) (image : Image)
      → HasReadPrefixes parse pool
      → flavor.id ≡ pool.flavor_id
      → image.id ≡ pool.image_id
      → assemble parse (convert_workload_pool pool) flavor image ≡ ok pool
  unfolding assemble convert_workload_pool convert_machine generate_allowed_address_pairs
      convert_allowed_address_pairs
  assemble-convert pool flavor image h f i =
      rw
        (
          generate_firewall_rules-convert pool.firewall h.0,
          ◌>>=◌,
          generate_pairs-convert pool.allowed_address_pairs h.1,
          ◌>>=◌,
          generate_image_selector-convert pool,
          f,
          i,
        )
        refl
