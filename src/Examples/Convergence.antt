-- ===== src/Examples/Convergence.antt =====
-- A cluster without servers that gets its first one.
use mathlib.Core.Path.{subst}
use uni_compute.Base.{
  ◌≡◌, refl, String, some, [], ◌∷◌, ◌≢◌, arith, string_eq, find-All, total, length, ◌+◌, ◌≤◌, ◌==◌,
  ==_differ,
}
use uni_compute.Base.Dict.{Dict, lookup}
use uni_compute.Base.Int.{pos_part}
use uni_compute.Base.Result.{ok}
use uni_compute.Api.{ComputeClusterWorkloadPoolSpec}
use uni_compute.Api.Accessors.{get_workload_pool}
use uni_compute.Status.{workload_pool_label}
use uni_compute.Cluster.ServerSet.{
  ServerSet, generate_security_group, new_server_pool_set, add_to_pools,
}
use uni_compute.Cluster.Reconcile.{creations}
use uni_compute.Cluster.Reconcile.Convergence.{AreGrouped}
use uni_compute.Cluster.Reconcile.Convergence.Growing.{IsCreating}
use uni_compute.Cluster.Reconcile.Convergence.Reached.{
  CanGrow, Converges, reconcile_servers-Converges,
}
use uni_compute.Examples.Data.{env, start, web, group, server}

labels_apart : env.compute_cluster_label ≢ workload_pool_label
unfolding string_eq
labels_apart = ==_differ env.compute_cluster_label workload_pool_label refl

one_name : IsCreating env 1
one_name = record {
  created = λ h scope w.
      (record (server "3" w.name) { spec = w.spec; tags = w.tags }, refl, refl, refl, refl);
  different = λ i j p q before below. ground (arith, before, below);
  labels = labels_apart;
}

only_web :
    (name : String) (pool : ComputeClusterWorkloadPoolSpec)
    → get_workload_pool (web ∷ []) name ≡ some pool
    → web ≡ pool
only_web name pool e =
    find-All (λ p. web ≡ p) (λ p. p.name == name) (web ∷ []) {x = pool} (refl, tt) e

web_group : generate_security_group web (("web", group) ∷ []) ≡ ok (some ("group" ∷ []))
unfolding generate_security_group lookup string_eq
web_group = refl

one_group : AreGrouped env "network" (("web", group) ∷ []) (web ∷ [])
one_group name pool e = (
  some ("group" ∷ []),
  subst (λ p. generate_security_group p (("web", group) ∷ []) ≡ ok (some ("group" ∷ [])))
      (only_web name pool e) web_group,
)

-- Nothing to refresh and one server to create.
enough_names :
    (sets : Dict ServerSet)
    → new_server_pool_set start.servers ≡ ok sets
    → 0
        + (total (λ (e : String × ServerSet). length e.1) sets
            + (pos_part (creations web sets) + 0))
      ≤ 1
unfolding new_server_pool_set add_to_pools creations lookup
enough_names sets e =
    let empty : ok [] ≡ ok sets = e in let same : [] ≡ sets = cc in rw (← same) (omega arith)

start-CanGrow : CanGrow env "network" (("web", group) ∷ []) 1 start
unfolding lookup string_eq
start-CanGrow = record {
  names = (refl, tt);
  own = (refl, tt);
  calm = refl;
  grouped = one_group;
  growing = record {
    distinct = tt;
    placed = tt;
    fresh = λ k p later below. refl;
    room = omega arith;
  };
  room = λ sets e. enough_names sets e;
  within = λ name pool e. rw (← only_web name pool e) refl;
}

reconcile_servers-Converges_example : Converges env "network" (("web", group) ∷ []) 1 start
reconcile_servers-Converges_example =
    reconcile_servers-Converges env "network" (("web", group) ∷ []) 1 one_name start start-CanGrow
