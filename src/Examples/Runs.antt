-- ===== src/Examples/Runs.antt =====
-- Runs of the cluster provisioner on the test cluster.
use uni_compute.Base.{ℕ, suc, ◌≡◌, refl, none, some, [], ◌∷◌, length, total, count, All, string_eq}
use uni_compute.Base.Dict.{insert, erase, Dict, lookup}
use uni_compute.Base.Int.{◌-ℤ◌, pos}
use uni_compute.Base.Result.{ok}
use uni_compute.Base.State.{Fine}
use uni_compute.External.Env.{replied}
use uni_compute.Status.{get_workload_pool_tag}
use uni_compute.Cluster.State.{State}
use uni_compute.Cluster.Client.{delete_server}
use uni_compute.Cluster.ServerSet.{
  add_to_pools, select_deletion_candidate, ServerSet, new_server_pool_set, generate_security_group,
}
use uni_compute.Cluster.ServerSet.Laws.{IsNamed, by_name, by_name-IsNamed}
use uni_compute.Cluster.Reconcile.{
  delete_server_wrapper, delete_one, scale_down, scale_up, creations, reconcile_servers,
  deletion_hint, reconcile_pools,
}
use uni_compute.Cluster.Reconcile.ScaleDown.{Deletes, ScalesDown, scale_down-ScalesDown}
use uni_compute.Cluster.Reconcile.ScaleUp.{Creates, deficit, scale_up-Creates}
use uni_compute.Cluster.Reconcile.Deletions.{is_foreign, live_ids, OnOk}
use uni_compute.Cluster.Reconcile.Deletions.Live.{reconcile_servers-IsSafe}
use uni_compute.Cluster.Reconcile.Sizes.Pools.{AreFilled, reconcile_pools-AreFilled}
use uni_compute.Cluster.Reconcile.Settled.{IsSettledPool, reconcile_servers-idle}
use uni_compute.Cluster.SecurityGroups.{reconcile_security_groups}
use uni_compute.Cluster.SecurityGroups.Ready.{ServesPools, reconcile_security_groups-Fine}
use uni_compute.Examples.Data.{server_a, server_b, group, cluster, env, web, start}

env-Deletes : Deletes (record env { deletion = λ _. replied 202 tt })
env-Deletes h = refl

-- The pool of two servers is brought down to one, and the evicted server is the one that goes.
abbrev two : ServerSet
two = by_name (server_a ∷ server_b ∷ [])

two-IsNamed : IsNamed two
unfolding string_eq
two-IsNamed = by_name-IsNamed (server_a ∷ server_b ∷ []) (refl, (refl, tt))

scale_down-ScalesDown_example :
    let world = record env { deletion = λ _. replied 202 tt } in
    (kept : ServerSet) × (t : State) × (scale_down world
        (suc (length two))
        (pos 1)
        ("2" ∷ [])
        two
        start
      ≡ (ok kept, t))
    × ScalesDown world ("2" ∷ []) 1 two start kept t
scale_down-ScalesDown_example =
    scale_down-ScalesDown (record env { deletion = λ _. replied 202 tt }) env-Deletes ("2" ∷ []) 1
      two start two-IsNamed

scaled_down :
    (scale_down env (suc (length two)) (pos 1) ("2" ∷ []) two start).0
    ≡ ok (by_name (server_a ∷ []))
unfolding scale_down string_eq delete_one select_deletion_candidate delete_server_wrapper
    delete_server erase
scaled_down = refl

scale_up-Creates_example :
    Creates
      (total (deficit []) (web ∷ []))
      start
      (scale_up env "network" (("web", group) ∷ []) (web ∷ []) [] start)
scale_up-Creates_example = scale_up-Creates env "network" (("web", group) ∷ []) (web ∷ []) [] start

reconcile_pools-AreFilled_example :
    OnOk
      (AreFilled (web ∷ []))
      (reconcile_pools env "network"
        (("web", group) ∷ [])
        (web ∷ [])
        []
        (("web", two) ∷ [])
        start).0
unfolding string_eq
reconcile_pools-AreFilled_example =
    reconcile_pools-AreFilled env "network" (("web", group) ∷ []) (web ∷ []) [] (("web", two) ∷ [])
      start (refl, tt) (refl, tt) (two-IsNamed, tt)

-- One server is there, and the pool asks for one.
abbrev settled : State
settled = record start { servers = by_name (server_a ∷ []) }

abbrev settled_sets : Dict ServerSet
settled_sets = ("web", by_name (server_a ∷ [])) ∷ []

settled_reads : new_server_pool_set settled.servers ≡ ok settled_sets
unfolding new_server_pool_set string_eq add_to_pools get_workload_pool_tag insert lookup
settled_reads = refl

settled_pools : All (IsSettledPool env "network" (("web", group) ∷ []) (web ∷ [])) settled_sets
unfolding generate_security_group string_eq lookup
settled_pools = (
  record {
    pool = web;
    group = some ("group" ∷ []);
    found = refl;
    sized = refl;
    grouped = refl;
    current = (refl, tt);
  },
  tt,
)

settled_exact :
    All (λ pool. creations pool settled_sets ≡ pos 0) settled.cluster.spec.workload_pools
unfolding creations string_eq lookup ◌-ℤ◌
settled_exact = (refl, tt)

no_hint : lookup deletion_hint settled.cluster.annotations ≡ none
unfolding lookup string_eq
no_hint = refl

reconcile_servers-idle_example :
    (k : ℕ) × (reconcile_servers env "network" (("web", group) ∷ []) settled
      ≡ (ok tt, record settled { draws = k }))
reconcile_servers-idle_example =
    reconcile_servers-idle env "network" (("web", group) ∷ []) settled settled_reads no_hint
      settled_pools settled_exact

reconcile_security_groups-Fine_example :
    Fine
      (λ set. ServesPools set cluster.spec.workload_pools)
      (reconcile_security_groups env cluster [] start).0
reconcile_security_groups-Fine_example = reconcile_security_groups-Fine env cluster [] start

-- Two servers are there, and the pool asks for one.
abbrev crowded : State
crowded = record start { servers = two }

reconcile_servers-IsSafe_example :
    count
      (is_foreign (live_ids crowded.servers))
      (reconcile_servers env "network" (("web", group) ∷ []) crowded).1.sent
    ≡ count (is_foreign (live_ids crowded.servers)) crowded.sent
reconcile_servers-IsSafe_example =
    reconcile_servers-IsSafe env "network" (("web", group) ∷ []) crowded
