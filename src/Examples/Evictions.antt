-- ===== src/Examples/Evictions.antt =====
-- The eviction of a server of the test cluster.
use mathlib.Core.Path.{subst}
use uni_compute.Base.{◌⊎◌, inl, inr, ◌≡◌, refl, List, [], ◌∷◌, Distinct, count, All, string_eq}
use uni_compute.Base.Dict.{lookup}
use uni_compute.Base.Result.{ok}
use uni_compute.External.Catalog.{HandlerHistory, found}
use uni_compute.External.Region.{ServerRead}
use uni_compute.Api.{ComputeCluster}
use uni_compute.Status.{get_workload_pool_tag}
use uni_compute.Cluster.State.{State}
use uni_compute.Cluster.ServerSet.{ServerSet}
use uni_compute.Cluster.ServerSet.Laws.{by_name}
use uni_compute.Cluster.Reconcile.{preferred_deletion_ids}
use uni_compute.Handler.Client.{write, flavors, servers, get_cluster}
use uni_compute.Handler.Evict.{
  commit, generate_allocations, decrement, take_out, evict_servers, evict_cluster, evicted, store,
  evict,
}
use uni_compute.Handler.Evict.Hint.{IsPlain, preferred_deletion_ids-evicted}
use uni_compute.Handler.Evict.Pools.{names_of}
use uni_compute.Handler.Evict.Chosen.{IsPriced}
use uni_compute.Handler.Evict.Guarded.{is_write, Passes, evict-Passes}
use uni_compute.Handler.Evict.Outcome.{Evicts, evict-Evicts, evict_succeeds}
use uni_compute.Examples.Data.{server_a, server_b, cluster, web}
use uni_compute.Examples.Handlers.{api, flavor}

abbrev after : HandlerHistory
after = (evict api "acme" "shop" "cluster" ("2" ∷ []) []).1

eviction_runs : evict api "acme" "shop" "cluster" ("2" ∷ []) [] ≡ (ok tt, after)
unfolding evict string_eq get_cluster lookup evict_cluster servers evict_servers take_out
    get_workload_pool_tag decrement store generate_allocations flavors commit write
eviction_runs = refl

-- The only cluster that the test services store has pools of distinct names.
pools-AreDistinct :
    (u : HandlerHistory) (c : ComputeCluster)
    → api.cluster u ≡ found c
    → Distinct (names_of c.spec.workload_pools)
pools-AreDistinct u c e =
    let same : cluster ≡ c = cc in
    subst (λ (d : ComputeCluster). Distinct (names_of d.spec.workload_pools)) same (refl, tt)

evict-Evicts_example : Evicts api "acme" "shop" "cluster" ("2" ∷ []) [] after
evict-Evicts_example =
    evict-Evicts api "acme" "shop" "cluster" ("2" ∷ []) [] pools-AreDistinct eviction_runs

evict-Passes_example :
    (count is_write (evict api "acme" "shop" "cluster" ("2" ∷ []) []).1 ≡ count is_write [])
    ⊎ ((c : ComputeCluster) × (all : List ServerRead) × Passes api "acme" "shop" "cluster"
          ("2" ∷ [])
          []
          c
          all)
evict-Passes_example = evict-Passes api "acme" "shop" "cluster" ("2" ∷ []) []

one-Passes : Passes api "acme" "shop" "cluster" ("2" ∷ []) [] cluster (server_a ∷ server_b ∷ [])
unfolding get_workload_pool_tag string_eq lookup
one-Passes = record {
  is_read = refl;
  is_version_1 = refl;
  is_owned = refl;
  live = refl;
  calm = refl;
  are_listed = refl;
  matched = refl;
  belong = (inl refl, (inr ("web", refl, refl), tt));
}

web-IsPriced : All (IsPriced (flavor ∷ [])) (web ∷ [])
unfolding string_eq
web-IsPriced = ((flavor, refl), tt)

evict_succeeds_example : (evict api "acme" "shop" "cluster" ("2" ∷ []) []).0 ≡ ok tt
evict_succeeds_example =
    evict_succeeds api "acme" "shop" "cluster" ("2" ∷ []) [] (flavor ∷ []) one-Passes (refl, tt)
      refl web-IsPriced (λ _. refl)

ids-ArePlain : All IsPlain ("2" ∷ "1" ∷ [])
ids-ArePlain = (refl, (refl, tt))

preferred_deletion_ids-evicted_example :
    preferred_deletion_ids (evicted ("2" ∷ "1" ∷ []) (web ∷ []) cluster) ≡ "2" ∷ "1" ∷ []
preferred_deletion_ids-evicted_example =
    preferred_deletion_ids-evicted "2" ("1" ∷ []) (web ∷ []) cluster ids-ArePlain

abbrev set : ServerSet
set = by_name (server_a ∷ server_b ∷ [])
