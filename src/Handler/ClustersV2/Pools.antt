-- ===== src/Handler/ClustersV2/Pools.antt =====
-- The pools of a version 2 cluster that are shown and written back.
use uni_compute.Base.{◌≡◌, refl, String, false, Option, List, [], ◌∷◌, map, All}
use uni_compute.Base.Result.{ok}
use uni_compute.External.Core.{IPv4Prefix}
use uni_compute.Api.{InstancePoolSpec}
use uni_compute.Handler.Instances.Networking.{
  normal, HasReadSources, list_or_nil-non_empty, generate_networking-convert_networking,
}
use uni_compute.Handler.ClustersV2.{convert_pools, generate_pools}

-- A pool as the API can describe it: nothing is paused or tagged, and networking that asks for
-- nothing is none.
abbrev pub normal_pool : InstancePoolSpec → InstancePoolSpec
normal_pool pool = record pool {
  template = record (pool.template) {
    pause = false;
    tags = [];
    networking = normal pool.template.networking;
  };
}

-- If `ParseCIDR` reads the prefixes of the pools back from what they print as, the pools that the API
-- shows of a cluster are read back as those of the cluster, in their order, except for what the API
-- does not describe: pause and tags of the templates are lost, and networking that asks for nothing
-- is none.
pub generate_pools-convert_pools :
    (parse : String → Option IPv4Prefix)
    → (pools : List InstancePoolSpec)
    → All (λ pool. HasReadSources parse pool.template.networking) pools
    → generate_pools parse (convert_pools pools) ≡ ok (map normal_pool pools)
unfolding generate_pools convert_pools
generate_pools-convert_pools parse [] h = refl
generate_pools-convert_pools parse (pool ∷ pools) (read, h) =
    rw
      (
        generate_networking-convert_networking parse pool.template.networking read,
        generate_pools-convert_pools parse pools h,
        list_or_nil-non_empty pool.template.user_data,
      )
      refl
