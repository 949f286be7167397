-- ===== src/Cluster/Tags.antt =====
-- util.go: the tags of what belongs to a pool.
pub mod Laws
use uni_compute.Base.{
  ◌≡◌, refl, String, Bool, true, false, ◌≢◌, Option, none, some, List, [], ◌∷◌, ◌++◌, map, any,
  find, ◌==◌, string_eq, if◌then◌else◌, Distinct, contains, arith, contains-append,
  Distinct-append_one,
}
use uni_compute.Base.Result.{ok}
use uni_compute.External.Core.{Tag}
use uni_compute.External.Env.{Env}
use uni_compute.Api.{ComputeCluster}
use uni_compute.Status.{workload_pool_label, get_workload_pool_tag}

-- `slices.ContainsFunc(out, hasTag)`
unfoldable pub has_tag : String → List Tag → Bool
has_tag name out = any (λ t. t.name == name) out

-- The loop over the cluster's own tags.
unfoldable pub add_tags : List Tag → List Tag → List Tag
add_tags out [] = out
add_tags out (tag ∷ rest) = add_tags (if has_tag tag.name out then out else out ++ (tag ∷ [])) rest

module _ (env : Env) where
  -- `tags`, of the cluster and the name of a pool.
  unfoldable pub tags : ComputeCluster → String → List Tag
  unfolding add_tags has_tag
  tags cluster pool =
      add_tags
        (record { name = env.compute_cluster_label; value = cluster.name }
          ∷ record { name = workload_pool_label; value = pool }
          ∷ [])
        cluster.spec.tags
