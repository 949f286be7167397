-- ===== src/Cluster/SecurityGroups/Required.antt =====
-- Which security groups a cluster requires, and what is scheduled for them.
use mathlib.Core.Path.{fun_ext}
use uni_compute.Base.{
  ◌≡◌, refl, ap, String, Bool, not, ◌&&◌, List, [], ◌∷◌, contains, distinct, by-distinct,
  delete_func, if◌then◌else◌, string_eq, Bool-cases, inl, inr, arith,
}
use uni_compute.Base.Dict.{keys}
use uni_compute.Base.Result.{ok, err, consistency, ◌>>=◌}
use uni_compute.Base.State.{Fine}
use uni_compute.External.Env.{Env}
use uni_compute.Api.{ComputeCluster, ComputeClusterWorkloadPoolSpec}
use uni_compute.Api.Accessors.{has_firewall_rules}
use uni_compute.Cluster.ServerSet.{add}
use uni_compute.Cluster.ServerSet.Adding.{add_all, add_all_lem, add_all-Fine}
use uni_compute.Cluster.SecurityGroups.{
  SecurityGroupSet, SecurityGroupCreateSet, add_requests, generate_security_group_request,
  generate_security_group_create_set, schedule_server_groups,
}

module _ (env : Env) (cluster : ComputeCluster) where
  -- The pools with firewall rules, each with the group that it asks for.
  unfoldable pub requests : List ComputeClusterWorkloadPoolSpec → SecurityGroupCreateSet
  requests [] = []
  requests (pool ∷ pools) =
      let rest = requests pools in
      if has_firewall_rules pool
      then (pool.name, generate_security_group_request env cluster pool) ∷ rest
      else rest

  add_requests-add_all :
      (pools : List ComputeClusterWorkloadPoolSpec) (set : SecurityGroupCreateSet)
      → add_requests env cluster set pools ≡ add_all set (requests pools)
  unfolding add_requests add_all requests
  add_requests-add_all [] set = refl
  add_requests-add_all (pool ∷ pools) set = elim (Bool-cases (has_firewall_rules pool)) [
    | inl e ↦ rw e (
        ap (λ k. add pool.name (generate_security_group_request env cluster pool) set >>= k)
          (fun_ext (add_requests-add_all pools)))
    | inr e ↦ rw e (add_requests-add_all pools set)
  ]

  -- The required groups are those of the pools with firewall rules, if these pools have distinct
  -- names, and the consistency error if two of them share one.
  pub generate_security_group_create_set_lem :
      let required = requests cluster.spec.workload_pools in
      generate_security_group_create_set env cluster
      ≡ (if distinct (keys required) then ok required else err consistency)
  unfolding generate_security_group_create_set
  generate_security_group_create_set_lem =
      let required = requests cluster.spec.workload_pools in
      by-distinct (keys required) (generate_security_group_create_set env cluster) (ok required)
        (err consistency)
        (rw (add_requests-add_all cluster.spec.workload_pools []) (add_all_lem required))

  -- The create set, if there is one, is that of the required groups.
  pub create_set-Fine :
      Fine
        (λ required. required ≡ requests cluster.spec.workload_pools)
        (generate_security_group_create_set env cluster)
  unfolding generate_security_group_create_set
  create_set-Fine =
      rw (add_requests-add_all cluster.spec.workload_pools [])
        (add_all-Fine (requests cluster.spec.workload_pools))

-- A test that every name passes or fails alike, in a list without some of its names.
contains-delete_func :
    (p : String → Bool) (names : List String) (name : String)
    → contains (delete_func p names) name ≡ (contains names name && not (p name))
contains-delete_func p [] name = refl
contains-delete_func p (n ∷ names) name = ground (arith, contains-delete_func p names name)

-- A group is created for a name that is required and not there, updated for one that is both, and
-- removed for one that is there and not required.
pub schedule_server_groups_lem :
    (current : SecurityGroupSet) (requested : SecurityGroupCreateSet) (name : String)
    → let (create, update, remove) = schedule_server_groups current requested in
      let here = contains (keys current) name in
      let wanted = contains (keys requested) name in
      (contains create name ≡ (wanted && not here))
      × (contains update name ≡ (here && wanted))
      × (contains remove name ≡ (here && not wanted))
unfolding schedule_server_groups
schedule_server_groups_lem current requested name = (
  contains-delete_func (contains (keys current)) (keys requested) name,
  ground (arith, contains-delete_func (λ n. not (contains (keys requested) n)) (keys current) name),
  contains-delete_func (contains (keys requested)) (keys current) name,
)
