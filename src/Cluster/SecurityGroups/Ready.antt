-- ===== src/Cluster/SecurityGroups/Ready.antt =====
-- What the rest of a reconcile can rely on once the security groups were reconciled.
use uni_compute.Base.{
  ◌≡◌, refl, ◌∙◌, ap, String, true, false, Option, none, some, List, [], ◌∷◌, ◌++◌, contains,
  contains-append, All, if◌then◌else◌, string_eq, Bool-cases, Option-cases, inl, inr, arith,
}
use uni_compute.Base.Dict.{keys, lookup, contains-keys}
use uni_compute.Base.Result.{ok}
use uni_compute.Base.State.{Fine, bind-Fine}
use uni_compute.External.Env.{Env}
use uni_compute.External.Region.{security_group_spec_eq}
use uni_compute.Api.{ComputeCluster, ComputeClusterWorkloadPoolSpec}
use uni_compute.Api.Accessors.{has_firewall_rules}
use uni_compute.Cluster.State.{State}
use uni_compute.Cluster.ServerSet.{generate_security_group}
use uni_compute.Cluster.SecurityGroups.Required.{
  requests, create_set-Fine, schedule_server_groups_lem,
}
use uni_compute.Cluster.SecurityGroups.{
  SecurityGroupSet, SecurityGroupCreateSet, create_groups, update_groups, remove_groups,
  schedule_server_groups, generate_security_group_create_set, reconcile_security_groups,
}
use uni_compute.Cluster.SecurityGroups.Loops.{
  AreKeys, create_groups-Fine, update_groups-Fine, remove_groups-Fine, AreKeys-of, create-AreKeys,
  update-AreKeys, remove-AreKeys, AreKeys-grown,
}

-- The group of every pool can be generated from the set.
abbrev pub ServesPools : SecurityGroupSet → List ComputeClusterWorkloadPoolSpec → Type 0
ServesPools set =
    All (λ pool. (group : Option (List String)) × (generate_security_group pool set ≡ ok group))

-- The set has a group for the pool, if the pool has firewall rules.
generate_of_key :
    (set : SecurityGroupSet) (pool : ComputeClusterWorkloadPoolSpec)
    → contains (keys set) pool.name ≡ true
    → (group : Option (List String)) × (generate_security_group pool set ≡ ok group)
unfolding generate_security_group
generate_of_key set pool h = elim (Option-cases (lookup pool.name set)) [
  | inl e ↦ absurd (ground (arith, contains-keys pool.name set))
  | inr (g, e) ↦ (if has_firewall_rules pool then some (g.id ∷ []) else none, ground arith)
]

generate_of_none :
    (set : SecurityGroupSet) (pool : ComputeClusterWorkloadPoolSpec)
    → has_firewall_rules pool ≡ false
    → (group : Option (List String)) × (generate_security_group pool set ≡ ok group)
unfolding generate_security_group
generate_of_none set pool e = (none, rw e refl)

module _ (env : Env) (cluster : ComputeCluster) where
  ServesPools-of_keys :
      (set : SecurityGroupSet) (pools : List ComputeClusterWorkloadPoolSpec)
      → AreKeys set (keys (requests env cluster pools))
      → ServesPools set pools
  unfolding requests
  ServesPools-of_keys set [] h = tt
  ServesPools-of_keys set (pool ∷ pools) h = elim (Bool-cases (has_firewall_rules pool)) [
    | inr e ↦ (generate_of_none set pool e, ServesPools-of_keys set pools (rw e at h))
    | inl e ↦
        let here : AreKeys set (pool.name ∷ keys (requests env cluster pools)) = rw e at h in
        (generate_of_key set pool here.0, ServesPools-of_keys set pools here.1)
  ]

  -- All that is required is there after the creations.
  required-AreKeys :
      (current set : SecurityGroupSet) (required : SecurityGroupCreateSet)
      → keys set ≡ keys current ++ (schedule_server_groups current required).0
      → (names : List String) → AreKeys required names
      → AreKeys set names
  required-AreKeys current set required e [] h = tt
  required-AreKeys current set required e (name ∷ names) h = (
    ap (λ ks. contains ks name) e
        ∙ ground (
          arith,
          h.0,
          contains-append (keys current) (schedule_server_groups current required).0 name,
          (schedule_server_groups_lem current required name).0,
        ),
    required-AreKeys current set required e names h.1,
  )

  -- Whatever the region service answers, reconciling the security groups never panics, and if it
  -- succeeds, no pool is left without the security group that its servers refer to.
  pub reconcile_security_groups-Fine :
      (current : SecurityGroupSet) (s : State)
      → Fine
          (λ set. ServesPools set cluster.spec.workload_pools)
          (reconcile_security_groups env cluster current s).0
  unfolding reconcile_security_groups
  reconcile_security_groups-Fine current s =
      bind-Fine _ _ (generate_security_group_create_set env cluster, s) _
        (create_set-Fine env cluster)
        λ required all.
          let scheduled = schedule_server_groups current required in
          let created = create_groups env required scheduled.0 current s in
          bind-Fine (λ set. keys set ≡ keys current ++ scheduled.0) _ created _
            (create_groups-Fine env required scheduled.0 current s
              (create-AreKeys current required))
            λ set grown.
              let both = update-AreKeys current required in
              let updated = update_groups env required set scheduled.1 created.1 in
              bind-Fine (λ _. Unit {0}) _ updated _
                (update_groups-Fine env required set scheduled.1 created.1 both.0
                  (AreKeys-grown current set scheduled.0 scheduled.1 grown both.1))
                λ _ _.
                  bind-Fine (λ _. Unit {0}) _ (remove_groups env set scheduled.2 updated.1) _
                    (remove_groups-Fine env set scheduled.2 updated.1 (
                      AreKeys-grown current set scheduled.0 scheduled.2 grown
                        (remove-AreKeys current required)))
                    λ _ _. ServesPools-of_keys set cluster.spec.workload_pools (
                      required-AreKeys current set required grown _
                        (rw (← all) (AreKeys-of required (keys required) (λ name c. c))))
