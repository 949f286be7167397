-- ===== src/Examples/Servers.antt =====
-- The status, the server set and the pools of the test cluster.
use uni_compute.Base.{
  ◌≡◌, ◌≢◌, ◌⊎◌, refl, String, not, ◌&&◌, none, some, List, [], ◌∷◌, contains, All, Distinct,
  if◌then◌else◌, ◌==◌, string_eq, ==_differ,
}
use uni_compute.Base.Dict.{keys}
use uni_compute.Base.Result.{ok, err, panic, consistency}
use uni_compute.External.Core.{ConditionType, healthy, condition_type_eq}
use uni_compute.External.Region.{ServerRead}
use uni_compute.Status.{get_workload_pool_tag, update_cluster_status, workload_pool_label}
use uni_compute.Status.Pools.{IsTagged}
use uni_compute.Status.Report.{
  Reports, health_condition, common_health, update_cluster_status-Reports,
  update_cluster_status-health,
}
use uni_compute.Cluster.Tags.{tags}
use uni_compute.Cluster.Tags.Laws.{tags_lem, tag_names, find_tag}
use uni_compute.Cluster.ServerSet.{select_deletion_candidate}
use uni_compute.Cluster.ServerSet.Laws.{names, by_name, IsNamed, by_name-IsNamed}
use uni_compute.Cluster.ServerSet.Candidates.{Picks, select_deletion_candidate-Picks}
use uni_compute.Cluster.SecurityGroups.{schedule_server_groups}
use uni_compute.Cluster.SecurityGroups.Required.{requests, schedule_server_groups_lem}
use uni_compute.Examples.Data.{
  stored_conditions, stored_conditions-AreLawful, server_a, server_b, group, cluster, env, web,
}

abbrev servers : List ServerRead
servers = server_b ∷ server_a ∷ []

abbrev untagged : ServerRead
untagged = record server_a { tags = none }

server_a-IsTagged : IsTagged server_a
unfolding get_workload_pool_tag string_eq
server_a-IsTagged = ("web", refl)

server_b-IsTagged : IsTagged server_b
unfolding get_workload_pool_tag string_eq
server_b-IsTagged = ("web", refl)

servers-AreTagged : All IsTagged servers
servers-AreTagged = (server_b-IsTagged, (server_a-IsTagged, tt))

untagged_fails : get_workload_pool_tag untagged.tags ≡ err consistency
unfolding get_workload_pool_tag
untagged_fails = refl

update_cluster_status-Reports_example :
    ((update_cluster_status stored_conditions cluster servers).0 ≡ ok tt)
    × Reports servers
        (update_cluster_status stored_conditions cluster servers).1.status.workload_pools
update_cluster_status-Reports_example =
    update_cluster_status-Reports stored_conditions cluster servers servers-AreTagged

update_cluster_status-health_example :
    stored_conditions.read
      (update_cluster_status stored_conditions cluster servers).1.status.conditions
      healthy
    ≡ (if ◌==◌ {A = ConditionType} healthy healthy
        then some (health_condition (common_health servers))
        else stored_conditions.read cluster.status.conditions healthy)
update_cluster_status-health_example =
    update_cluster_status-health stored_conditions cluster stored_conditions-AreLawful servers
      healthy servers-AreTagged

labels_differ : env.compute_cluster_label ≢ workload_pool_label
unfolding string_eq
labels_differ = ==_differ env.compute_cluster_label workload_pool_label refl

tags_example :
    (get_workload_pool_tag (some (tags env cluster "web")) ≡ ok "web")
    × Distinct (tag_names (tags env cluster "web"))
    × ((name : String)
        → find_tag name (tags env cluster "web") ≡ (
            if env.compute_cluster_label == name
            then some (record { name = env.compute_cluster_label; value = cluster.name })
            else if workload_pool_label == name
            then some (record { name = workload_pool_label; value = "web" })
            else find_tag name cluster.spec.tags))
tags_example = tags_lem env cluster "web" labels_differ

servers-Distinct : Distinct (names servers)
unfolding string_eq
servers-Distinct = (refl, (refl, tt))

servers-IsNamed : IsNamed (by_name servers)
servers-IsNamed = by_name-IsNamed servers servers-Distinct

select_deletion_candidate-Picks_example :
    (select_deletion_candidate [] ("1" ∷ []) ≡ panic)
    × ((by_name servers ≡ [])
        ⊎ ((v : ServerRead) × (select_deletion_candidate (by_name servers) ("1" ∷ []) ≡ ok v)
            × Picks ("1" ∷ []) (by_name servers) v))
select_deletion_candidate-Picks_example =
    select_deletion_candidate-Picks ("1" ∷ []) (by_name servers) servers-IsNamed

-- The server that was evicted goes first, wherever it stands.
evicted_first : select_deletion_candidate (by_name servers) ("1" ∷ []) ≡ ok server_a
unfolding select_deletion_candidate string_eq
evicted_first = refl

schedule_server_groups_example :
    let requested = requests env cluster (web ∷ []) in
    let (create, update, remove) = schedule_server_groups (("old", group) ∷ []) requested in
    let here = contains (keys (("old", group) ∷ [])) "web" in
    let wanted = contains (keys requested) "web" in
    (contains create "web" ≡ (wanted && not here))
    × (contains update "web" ≡ (here && wanted))
    × (contains remove "web" ≡ (here && not wanted))
schedule_server_groups_example =
    schedule_server_groups_lem (("old", group) ∷ []) (requests env cluster (web ∷ [])) "web"
